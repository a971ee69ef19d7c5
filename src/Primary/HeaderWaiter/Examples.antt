-- ===== src/Primary/HeaderWaiter/Examples.antt =====
-- A header that waits for a batch until the clean-up drops it, and the theorems at it.
use dag_bft_sigmod.Base.{◌+◌, ◌≤◌, ◌≡◌, refl, true, false, some, List, [], ◌∷◌, arith}
use dag_bft_sigmod.Config.{Committee, worker}
use dag_bft_sigmod.Config.Examples.{four, one_vote}
use dag_bft_sigmod.Primary.Errors.{Round}
use dag_bft_sigmod.Primary.Messages.{Header, default_header}
use dag_bft_sigmod.Primary.HeaderWaiter.{
  HeaderWaiter, new_waiter, sync_batches, sync_parents, WaiterOutput, wait, synchronize,
  WaiterEvent, message, turns, collect_garbage,
}
use dag_bft_sigmod.Primary.HeaderWaiter.Pending.{waits, leaves, turns-wait_once}
use dag_bft_sigmod.Primary.HeaderWaiter.Cancelled.{all_above, collect_garbage-drops_all}
use dag_bft_sigmod.Primary.Node.{payload_key}

-- The committee, with a worker 0 of the first authority.
abbrev with_worker : Committee
with_worker = record four {
  authorities =
      (
        1,
        record one_vote {
          workers =
              (0, record { transactions = 10; worker_to_worker = 11; primary_to_worker = 12 }) ∷ [];
        },
      )
      ∷ (2, one_vote)
      ∷ [];
}

unfoldable waiting_header : Header
unfolding default_header
waiting_header = record default_header { id = 77; author = 2; round = 3 }

abbrev requests : List (Round × WaiterEvent)
requests =
    (0, message (sync_batches ((91, 0) ∷ []) waiting_header) 5)
    ∷ (0, message (sync_parents (81 ∷ []) waiting_header) 6)
    ∷ []

abbrev waiting : HeaderWaiter
waiting = record {
  parent_requests = [];
  batch_requests = (91, 3) ∷ [];
  pending = (77, (3, false)) ∷ [];
}

abbrev sent : List WaiterOutput
sent = wait (payload_key 91 0 ∷ []) waiting_header ∷ synchronize 12 (91 ∷ []) 2 ∷ []

requests_wait_once : turns 1 with_worker 50 100 3 new_waiter requests ≡ some (waiting, sent)
unfolding turns new_waiter waiting_header worker
requests_wait_once = refl

turns-wait_once_example : waits 77 sent ≤ 1 + leaves 77 sent
turns-wait_once_example =
    turns-wait_once 1 with_worker 50 100 3 77 waiting requests sent requests_wait_once

collect_garbage-drops_all_example : all_above 10 (collect_garbage 50 60 waiting).0.pending ≡ true
collect_garbage-drops_all_example =
    collect_garbage-drops_all 1 with_worker 50 100 3 waiting requests sent 60 requests_wait_once
      (omega arith)
