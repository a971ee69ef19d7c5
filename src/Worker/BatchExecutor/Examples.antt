-- ===== src/Worker/BatchExecutor/Examples.antt =====
-- Concrete batches for an executor of two, and the theorems of `Worker.BatchExecutor` and of
-- `Worker.Router` at them.
use mathlib.Core.List.{Memᴰ, Permᴰ}
use dag_bft_sigmod.Base.{
  ◌⊎◌, ℕ, ◌+◌, ◌-◌, ◌≤◌, ◌≢◌, ◌≡◌, refl, none, some, List, [], ◌∷◌, ◌++◌, true, false, All, arith,
  nat_eq, contains,
}
use dag_bft_sigmod.Base.Maps.{lookup}
use dag_bft_sigmod.Base.Int.{pos, ◌+ℤ◌, ◌-ℤ◌, saturate_i64, wrap_i64}
use dag_bft_sigmod.Config.Examples.{four}
use dag_bft_sigmod.Store.{ok}
use dag_bft_sigmod.Primary.Messages.{be_bytes}
use dag_bft_sigmod.Worker.Bytes.{from_be_onto}
use dag_bft_sigmod.Worker.Workload.{SmallBankTransaction, send_payment, to_bytes}
use dag_bft_sigmod.Worker.Transaction.{TransactionHeader}
use dag_bft_sigmod.Worker.Account.{
  Float, AccountState, AccountStore, execute_send_payment_debit, execute_send_payment_credit,
}
use dag_bft_sigmod.Worker.Messages.{batch, WorkerCodec}
use dag_bft_sigmod.Worker.BatchExecutor.{
  Partition, local, migrate_out, migrate_in, Execution, BatchExecutor, ExecutorSetup,
  PendingTransaction, send_state, tx_id_eq,
}
use dag_bft_sigmod.Worker.BatchExecutor.Locality.{determine_locality, update_partition_for_locality}
use dag_bft_sigmod.Worker.BatchExecutor.Locality.Agreement.{update_partition-determine_locality}
use dag_bft_sigmod.Worker.BatchExecutor.Locality.Handoff.{
  determine_locality-handoff, hands_over, awaits,
}
use dag_bft_sigmod.Worker.BatchExecutor.Scheduler.{
  Scheduled, schedule_new, schedule_old, zero_loads, choose_executor,
}
use dag_bft_sigmod.Worker.BatchExecutor.Scheduler.AnyOrder.{choose_executor-Perm}
use dag_bft_sigmod.Worker.BatchExecutor.Scheduler.Limit.{targeted, schedule_new-targeted}
use dag_bft_sigmod.Worker.BatchExecutor.Queues.{is_ready_to_execute}
use dag_bft_sigmod.Worker.BatchExecutor.Execute.{
  drain, exhausted, extend_worklist, all_turns, execute_migrate_out, run_head, send_payment_in,
  execute_single_local_transaction, apply_transaction, update_account,
}
use dag_bft_sigmod.Worker.BatchExecutor.Execute.Drain.{drain_pending_queues-ends}
use dag_bft_sigmod.Worker.BatchExecutor.Execute.Handover.{execute_migrate_out-moves, transfers_of}
use dag_bft_sigmod.Worker.BatchExecutor.Execute.Payment.{send_payment_lem, paid}
use dag_bft_sigmod.Worker.BatchExecutor.Batches.{
  execute_batch, handle_transaction_by_locality, scheduled_by,
  parse_and_schedule_batch_transactions, localities_of, execute_each, handle_local_transaction,
}
use dag_bft_sigmod.Worker.BatchExecutor.Transfers.{
  process_incoming_transfers, process_transfers, extend_transfers,
}
use dag_bft_sigmod.Worker.BatchExecutor.Batches.Malformed.{execute_batch-malformed}
use dag_bft_sigmod.Worker.BatchExecutor.Batches.SelfPayment.{handle_self_payment}
use dag_bft_sigmod.Worker.BatchExecutor.Sequence.{process_execute}
use dag_bft_sigmod.Worker.BatchExecutor.Sequence.InOrder.{Arrival, process_all, InOrder, executed}
use dag_bft_sigmod.Worker.BatchExecutor.Sequence.Refinement.{
  WasExecuted, Waits, process_all-refines,
}
use dag_bft_sigmod.Worker.BatchExecutor.Conserved.{IsSingle, held, count_sent}
use dag_bft_sigmod.Worker.BatchExecutor.Conserved.Sequence.{process_all-keeps_accounts}
use dag_bft_sigmod.Worker.Router.{
  sequence_sync, read_batch, handle_command, receive_from_router, handle_command-process_execute,
}

-- Amounts are whole numbers here.
abbrev whole : Float
whole = record { as_i64 = λ n. pos n; less_one_as_i64 = λ n. pos (n - 1) }

abbrev executor_0 : ExecutorSetup
executor_0 = record {
  executor_id = 0;
  num_executors = 2;
  use_new_scheduler = false;
  committee = four;
  float = whole;
  max_allowed = λ n. n;
}

-- Accounts 1 and 2 are with executor 0, account 3 is with executor 1.
abbrev accounts_of_two : Partition
accounts_of_two = (1, 0) ∷ (2, 0) ∷ (3, 1) ∷ []

abbrev balances : ℕ → AccountState
balances n = record { checking_balance = pos n; savings_balance = pos 7 }

abbrev store_0 : AccountStore
store_0 = (1, balances 100) ∷ (2, balances 50) ∷ []

abbrev at_start : Execution
at_start = record {
  account_store = store_0;
  states_schedule_partition = accounts_of_two;
  pending_queues = [];
  incoming_transfers = [];
  scheduled_tx_count = 0;
  executed_tx_count = 0;
  lock_stats = record {
    total_transactions = 0;
    lock_hits = 0;
    eager_executions = 0;
    current_queue_depth = 0;
    max_single_queue_depth = (0, 0);
    max_total_queue_depth = 0;
  };
  drained_incoming_transfers = [];
  sent = [];
}

abbrev new_executor : BatchExecutor
new_executor = record {
  execution = at_start;
  next_sequence = 0;
  buffer = [];
  last_feedback_sent = 0;
}

update_partition-determine_locality_example :
    lookup 3
      (update_partition_for_locality 0 accounts_of_two (migrate_in ((3, 1) ∷ [])) (1 ∷ 3 ∷ []))
    ≡ some 0
unfolding contains determine_locality
update_partition-determine_locality_example =
    update_partition-determine_locality 3 0 0 accounts_of_two (1 ∷ 3 ∷ [])
      (migrate_in ((3, 1) ∷ [])) refl

determine_locality-handoff_example :
    hands_over 3 0 (migrate_out (3 ∷ []) (1 ∷ []) 0) ≡ awaits 3 1 (migrate_in ((3, 1) ∷ []))
unfolding determine_locality
determine_locality-handoff_example =
    determine_locality-handoff 3 1 0 accounts_of_two (1 ∷ 3 ∷ []) (migrate_out (3 ∷ []) (1 ∷ []) 0)
      (migrate_in ((3, 1) ∷ [])) (omega arith) refl refl

choose_executor-Perm_example :
    choose_executor 5 (1 ∷ 0 ∷ []) ((0, 1) ∷ (1, 1) ∷ [])
    ≡ choose_executor 5 (1 ∷ 0 ∷ []) ((1, 1) ∷ (0, 1) ∷ [])
choose_executor-Perm_example =
    choose_executor-Perm 5 (1 ∷ 0 ∷ []) ((0, 1) ∷ (1, 1) ∷ []) ((1, 1) ∷ (0, 1) ∷ [])
      (Permᴰ.swap refl refl)

-- Account 1 pays 30 to account 2.
abbrev pays_2 : SmallBankTransaction
pays_2 = record { tx_type = send_payment; account_id = 1; dest_account_id = 2; amount = 30 }

abbrev raw : SmallBankTransaction → List ℕ
raw t = 1 ∷ 2 ∷ (be_bytes 8 9 ++ to_bytes t)

send_payment_lem_example :
    ((store' : AccountStore) × (send_payment_in whole pays_2 store_0 ≡ some (store', true))
      × ((k : ℕ) → lookup k store' ≡ paid whole pays_2 (balances 100) (balances 50) store_0 k))
    × (pos 70 +ℤ pos 80 ≡ pos 100 +ℤ pos 50)
unfolding lookup ◌-ℤ◌ ◌+ℤ◌
send_payment_lem_example =
    send_payment_lem whole pays_2 (balances 100) (balances 50) store_0 (omega arith) refl refl
      (omega arith, omega arith) (omega arith, omega arith)

abbrev some_header : TransactionHeader
some_header = record { tx_type = 1; id = record { region_id = 2; tx_counter = 9 } }

abbrev scheduled_on : ℕ → Scheduled
scheduled_on target = record {
  tx_bytes = raw pays_2;
  header = some_header;
  required_accounts = 1 ∷ 2 ∷ [];
  target = target;
}

schedule_new-targeted_example : targeted 0 (scheduled_on 0 ∷ scheduled_on 1 ∷ []) ≤ 1
unfolding schedule_new zero_loads from_be_onto be_bytes to_bytes
schedule_new-targeted_example =
    schedule_new-targeted 1 2 0 accounts_of_two (raw pays_2 ∷ raw pays_2 ∷ [])
      (scheduled_on 0 ∷ scheduled_on 1 ∷ []) (1 ∷ 1 ∷ []) (omega arith) refl

abbrev waiting : PendingTransaction
waiting = record {
  tx_bytes = raw pays_2;
  tx_header = some_header;
  sb_tx = pays_2;
  batch_digest = 5;
  required_accounts = 1 ∷ 2 ∷ [];
  locality = local;
}

abbrev with_waiting : Execution
with_waiting = record at_start { pending_queues = (1, waiting ∷ []) ∷ (2, waiting ∷ []) ∷ [] }

drain_pending_queues-ends_example :
    drain 20 executor_0 none (extend_worklist [] (1 ∷ [])) with_waiting ≢ exhausted
unfolding all_turns
drain_pending_queues-ends_example =
    drain_pending_queues-ends 20 executor_0 (1 ∷ []) with_waiting (omega arith)

abbrev store_2 : AccountStore
store_2 = (2, balances 50) ∷ []

execute_migrate_out-moves_example :
    (lookup 1 store_2 ≡ none)
    × ([]
          ++ (send_state
                (record {
                  tx_id = record { region_id = 2; tx_counter = 9 };
                  src_account_id = 1;
                  src_account_state = balances 100;
                })
                1
              ∷ [])
        ≡ transfers_of some_header.id 1 store_0 (1 ∷ []))
unfolding execute_migrate_out contains lookup
execute_migrate_out-moves_example =
    execute_migrate_out-moves some_header (1 ∷ []) 1 1 at_start
      (record at_start {
        account_store = store_2;
        sent =
            send_state
              (record {
                tx_id = record { region_id = 2; tx_counter = 9 };
                src_account_id = 1;
                src_account_state = balances 100;
              })
              1
            ∷ [];
      })
      (refl, tt) refl

-- A header, and nothing after it but two bytes.
abbrev no_payload : List ℕ
no_payload = 1 ∷ 2 ∷ 0 ∷ 0 ∷ 0 ∷ 0 ∷ 0 ∷ 0 ∷ 0 ∷ 9 ∷ 4 ∷ 4 ∷ []

execute_batch-malformed_example :
    execute_batch executor_0 5 (raw pays_2 ∷ no_payload ∷ []) at_start ≡ none
execute_batch-malformed_example =
    execute_batch-malformed executor_0 5 (raw pays_2 ∷ no_payload ∷ []) no_payload at_start
      (Memᴰ.tail (Memᴰ.head refl)) (omega arith) (omega arith)

handle_self_payment_example :
    (determine_locality 0 accounts_of_two (1 ∷ 1 ∷ []) 1 ≡ some (migrate_out (1 ∷ 1 ∷ []) [] 1))
    × (handle_transaction_by_locality executor_0 5
          (raw pays_2)
          some_header
          (1 ∷ 1 ∷ [])
          (migrate_out (1 ∷ 1 ∷ []) [] 1)
          at_start
        ≡ none)
    × (run_head executor_0 some_header.id [] (migrate_out (1 ∷ 1 ∷ []) [] 1) [] with_waiting ≡ none)
unfolding lookup is_ready_to_execute
handle_self_payment_example =
    handle_self_payment executor_0 5 (raw pays_2) some_header 1 1 [] [] at_start with_waiting refl
      (omega arith) refl

abbrev all_empty : WorkerCodec
all_empty = record {
  deserialize = λ bytes. some (batch []);
  serialize = λ m. [];
  hash = λ bytes. 0;
  to_vec = λ d. d ∷ [];
}

handle_command-process_execute_example : process_execute executor_0 0 3 [] new_executor ≡ none
unfolding handle_command read_batch receive_from_router
handle_command-process_execute_example =
    handle_command-process_execute all_empty ((0, 77) ∷ []) (record { digest = 5; sequence = 3 })
      (ok (some (9 ∷ []))) (ok none) [] (77, sequence_sync 3) executor_0 new_executor refl
      (Memᴰ.head refl) (omega arith) (omega arith)

abbrev second_first : List Arrival
second_first =
    record { digest = 6; sequence = 1; transactions = [] }
    ∷ record { digest = 5; sequence = 0; transactions = raw pays_2 ∷ [] }
    ∷ []

abbrev after_two : BatchExecutor
after_two = record {
  execution = record at_start {
    account_store = (1, balances 70) ∷ (2, balances 80) ∷ [];
    scheduled_tx_count = 1;
    executed_tx_count = 1;
    lock_stats = record at_start.lock_stats { total_transactions = 1; eager_executions = 1 };
  };
  next_sequence = 2;
  buffer = [];
  last_feedback_sent = 0;
}

second_first_run : process_all executor_0 second_first new_executor ≡ some after_two
unfolding process_all execute_batch from_be_onto be_bytes to_bytes
    parse_and_schedule_batch_transactions schedule_old localities_of execute_each
    handle_local_transaction is_ready_to_execute execute_single_local_transaction apply_transaction
    send_payment_in update_account execute_send_payment_debit execute_send_payment_credit wrap_i64
    saturate_i64 ◌-ℤ◌ ◌+ℤ◌ process_incoming_transfers scheduled_by process_transfers
    extend_transfers
second_first_run = refl

process_all-refines_example :
    (run : InOrder executor_0 second_first new_executor after_two) × (lookup 2 after_two.buffer
      ≡ none)
    × All
        (λ b.
          WasExecuted second_first
            (executed executor_0 second_first new_executor after_two run)
            b.sequence
          ⊎ Waits second_first after_two.buffer b.sequence)
        second_first
process_all-refines_example =
    process_all-refines executor_0 second_first new_executor after_two refl second_first_run

process_all-keeps_accounts_example :
    IsSingle 1 after_two.execution
    × (held 1 after_two.execution + count_sent 1 [] ≡ held 1 at_start + count_sent 1 [])
unfolding held
process_all-keeps_accounts_example =
    process_all-keeps_accounts 1 executor_0 second_first new_executor after_two refl
      second_first_run (omega arith, tt)
