-- ===== src/Worker/BatchExecutor/Sequence.antt =====
-- worker/src/batch_executor.rs: the order of the batches. `none` is a panic.
pub mod InOrder
pub mod Refinement
use dag_bft_sigmod.Base.{
  ℕ, zero, suc, ◌+◌, ◌-◌, Bool, true, false, ◌&&◌, Option, none, some, List, [], ◌∷◌, ◌++◌,
  if◌then◌else◌, length, ltb, leb, ◌==◌, is_empty, nat_eq,
}
use dag_bft_sigmod.Base.Maps.{Map, lookup, insert, remove}
use dag_bft_sigmod.Primary.Errors.{Digest}
use dag_bft_sigmod.Worker.BatchExecutor.{
  Execution, BatchExecutor, BufferedBatch, ExecutorSetup, ExecutorOutput, feedback, ◌>>=◌,
}
use dag_bft_sigmod.Worker.BatchExecutor.Batches.{execute_batch}

abbrev pub feedback_interval : ℕ
feedback_interval = 100

abbrev pub max_buffered : ℕ
max_buffered = 5000

-- `Digest::default()`.
abbrev pub default_digest : Digest
default_digest = 0

unfoldable pub send_feedback_if_needed : ExecutorSetup → BatchExecutor → BatchExecutor
send_feedback_if_needed setup s =
    let last_executed = s.next_sequence - 1 in
    if leb (s.last_feedback_sent + feedback_interval) last_executed
    then record s {
      execution = record s.execution {
        sent = s.execution.sent ++ (feedback setup.executor_id last_executed ∷ []);
      };
      last_feedback_sent = last_executed;
    }
    else s

-- The batch that is next is executed.
unfoldable pub execute_next :
    ExecutorSetup → Digest → List (List ℕ) → BatchExecutor → Option BatchExecutor
unfolding send_feedback_if_needed
execute_next setup digest transactions s = do
  executed ← execute_batch setup digest transactions s.execution
  some (
      send_feedback_if_needed setup
        (record s { execution = executed; next_sequence = s.next_sequence + 1 }))

-- The loop over consecutive buffered batches, which leaves the buffer shorter in each turn: the fuel is
-- the length of the buffer.
unfoldable pub execute_buffered : ℕ → ExecutorSetup → BatchExecutor → Option BatchExecutor
unfolding lookup remove execute_next
execute_buffered zero setup s = some s
execute_buffered (suc fuel) setup s = elim (lookup s.next_sequence s.buffer) [
  | none ↦ some s
  | some buffered ↦
      elim (execute_next setup buffered.digest buffered.transactions
        (record s { buffer = remove s.next_sequence s.buffer })) [
          | none ↦ none
          | some s' ↦ execute_buffered fuel setup s'
        ]
]

unfoldable pub process_execute :
    ExecutorSetup → Digest → ℕ → List (List ℕ) → BatchExecutor → Option BatchExecutor
unfolding execute_next execute_buffered insert
process_execute setup digest sequence transactions s =
    if sequence == s.next_sequence
    then (do
      s' ← execute_next setup digest transactions s
      execute_buffered (length s'.buffer) setup s')
    else if ltb s.next_sequence sequence
    then (if is_empty transactions && digest == default_digest
        then none
        else if ltb (length s.buffer) max_buffered
        then some (record s {
          buffer =
              insert sequence (record { digest = digest; transactions = transactions }) s.buffer;
        })
        else none)
    else none
