-- ===== src/Worker/Examples.antt =====
-- Concrete transactions and batches, and the theorems of `Worker` at them.
use mathlib.Core.List.{Memᴰ}
use dag_bft_sigmod.Base.{
  ℕ, ◌+◌, ◌-◌, ◌*◌, ◌%◌, ◌≤◌, ◌↔◌, ◌≡◌, false, nat_eq, refl, not, ◌&&◌, leb, is_empty, some, List,
  [], ◌∷◌, ◌++◌, arith,
}
use dag_bft_sigmod.Base.Maps.{lookup, get_or}
use dag_bft_sigmod.Worker.Messages.{batch, WorkerCodec}
use dag_bft_sigmod.Worker.Processor.{account_counts_of, transactions_of, account_counts_lem}
use dag_bft_sigmod.Worker.Synchronizer.{SynchronizerSetup, Synchronizer, delete_batch, on_cleanup}
use dag_bft_sigmod.Worker.Synchronizer.Cleanup.{OldBatch, on_cleanup-deletes_old}
use dag_bft_sigmod.Config.{stake, stake_in, quorum_threshold}
use dag_bft_sigmod.Config.Examples.{four}
use dag_bft_sigmod.Primary.Messages.{be_bytes}
use dag_bft_sigmod.Worker.Bytes.{take, drop, from_be_onto}
use dag_bft_sigmod.Worker.Workload.{
  SmallBankTransaction, send_payment, from_bytes, to_bytes, from_bytes-to_bytes,
}
use dag_bft_sigmod.Worker.Transaction.{
  parse_transaction_header, parse_smallbank_payload, parse_transaction_header-be_bytes,
}
use dag_bft_sigmod.Worker.BatchMaker.{
  BatchEvent, transaction, timer, new_batch_maker, make_batches, arrivals, contents,
  make_batches-keeps_order,
}
use dag_bft_sigmod.Worker.QuorumWaiter.{wait_for_quorum, stake_of_acks, wait_for_quorum_iff}

-- Account 7 pays account 300.
abbrev payment : SmallBankTransaction
payment = record {
  tx_type = send_payment;
  account_id = 7;
  dest_account_id = 300;
  amount = 4617315517961601024;
}

from_bytes-to_bytes_example : from_bytes (to_bytes payment) ≡ some payment
from_bytes-to_bytes_example = from_bytes-to_bytes payment (omega arith) (omega arith) (omega arith)

-- The transaction with the payment, from region 2.
unfoldable raw_payment : List ℕ
unfolding to_bytes be_bytes
raw_payment = 1 ∷ 2 ∷ (be_bytes 8 600 ++ to_bytes payment)

parse_transaction_header-be_bytes_example :
    parse_transaction_header (1 ∷ 2 ∷ (be_bytes 8 600 ++ to_bytes payment))
    ≡ some (record { tx_type = 1; id = record { region_id = 2; tx_counter = 600 } })
parse_transaction_header-be_bytes_example =
    parse_transaction_header-be_bytes 1 2 600 (to_bytes payment) (omega arith)

raw_payment_parsed : parse_smallbank_payload raw_payment ≡ some payment
unfolding parse_smallbank_payload raw_payment from_be_onto
raw_payment_parsed = refl

abbrev arriving : List BatchEvent
arriving =
    transaction (1 ∷ 2 ∷ [])
    ∷ timer
    ∷ timer
    ∷ transaction (3 ∷ [])
    ∷ transaction (4 ∷ 5 ∷ 6 ∷ [])
    ∷ []

two_batches :
    (make_batches 4 new_batch_maker arriving).1
    ≡ ((1 ∷ 2 ∷ []) ∷ []) ∷ ((3 ∷ []) ∷ (4 ∷ 5 ∷ 6 ∷ []) ∷ []) ∷ []
unfolding make_batches new_batch_maker
two_batches = refl

make_batches-keeps_order_example :
    contents (make_batches 4 new_batch_maker arriving).1
      ++ (make_batches 4 new_batch_maker arriving).0.current_batch
    ≡ new_batch_maker.current_batch ++ arrivals arriving
make_batches-keeps_order_example = make_batches-keeps_order 4 new_batch_maker arriving

abbrev acks : List ℕ
acks = 3 ∷ 2 ∷ []

wait_for_quorum_iff_example :
    wait_for_quorum four 1 acks
    ≡ (not (is_empty acks) && leb (quorum_threshold four) (1 + stake_of_acks four acks))
unfolding stake_of_acks stake stake_in
wait_for_quorum_iff_example = wait_for_quorum_iff four 1 acks (omega arith)

-- Every message is a batch with one payment, twice.
abbrev twice_paid : WorkerCodec
twice_paid = record {
  deserialize = λ bytes. some (batch (raw_payment ∷ (1 ∷ []) ∷ raw_payment ∷ []));
  serialize = λ m. [];
  hash = λ bytes. 5;
  to_vec = λ d. d ∷ [];
}

account_counts_lem_example : get_or 0 (lookup 7 (account_counts_of twice_paid false [])) ≡ 2 % 65536
unfolding transactions_of raw_payment from_be_onto take drop
account_counts_lem_example =
    account_counts_lem twice_paid [] (raw_payment ∷ (1 ∷ []) ∷ raw_payment ∷ []) 7 refl

abbrev depth_of_3 : SynchronizerSetup
depth_of_3 = record {
  name = 1;
  id = 0;
  committee = four;
  gc_depth = 3;
  sync_retry_delay = 100;
  sync_retry_nodes = 2;
}

abbrev with_batches : Synchronizer
with_batches = record {
  round = 8;
  pending = (7, record { round = 2; timestamp = 5 }) ∷ [];
  committed_batches = (2, 11 ∷ 12 ∷ []) ∷ (4, 13 ∷ []) ∷ [];
}

on_cleanup-deletes_old_example :
    Memᴰ (delete_batch 12) (on_cleanup depth_of_3 9 with_batches).1
    ↔ ((2 * 3 ≤ 9) × OldBatch (9 - 2 * 3) with_batches.committed_batches 12)
on_cleanup-deletes_old_example = on_cleanup-deletes_old depth_of_3 9 with_batches 12
