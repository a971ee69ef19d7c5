-- ===== src/Worker/BatchExecutor/Batches.antt =====
-- worker/src/batch_executor.rs: the execution of a batch. `none` is a panic.
pub mod Malformed
pub mod SelfPayment
use dag_bft_sigmod.Base.{
  ℕ, zero, suc, ◌+◌, ◌-◌, Bool, true, false, ◌&&◌, ◌||◌, Option, none, some, List, [], ◌∷◌, ◌++◌,
  if◌then◌else◌, length, ltb, leb, ◌==◌, contains, nat_eq, map,
}
use dag_bft_sigmod.Base.Maps.{Map, lookup, insert, remove, contains_key, get_or, keys}
use dag_bft_sigmod.Primary.Errors.{Digest}
use dag_bft_sigmod.Worker.Account.{AccountStore}
use dag_bft_sigmod.Worker.Transaction.{TxId, TransactionHeader, parse_smallbank_payload}
use dag_bft_sigmod.Worker.BatchExecutor.{
  Execution, BatchExecutor, BufferedBatch, ExecutorSetup, PendingTransaction, TransactionLocality,
  local, migrate_out, migrate_in, others, StateTransfer, ExecutorOutput, feedback, Partition,
  tx_id_beq, tx_id_eq, ◌>>=◌,
}
use dag_bft_sigmod.Worker.BatchExecutor.Locality.{determine_locality, update_partition_for_locality}
use dag_bft_sigmod.Worker.BatchExecutor.Scheduler.{
  Scheduled, schedule_new, schedule_old, zero_loads,
}
use dag_bft_sigmod.Worker.BatchExecutor.Queues.{
  Queues, is_ready_to_execute, is_enqueued_at_head, lock_and_enqueue_transaction,
  pop_transaction_from_accounts, update_queue_depths,
}
use dag_bft_sigmod.Worker.BatchExecutor.Transfers.{process_incoming_transfers}
use dag_bft_sigmod.Worker.BatchExecutor.Execute.{
  execute_single_local_transaction, execute_migrate_out, drain_pending_queues,
}

abbrev pub count_eager : Execution → Execution
count_eager st = record st {
  lock_stats = record st.lock_stats { eager_executions = st.lock_stats.eager_executions + 1 };
}

unfoldable pub handle_local_transaction :
    ExecutorSetup
    → Digest
    → List ℕ
    → TransactionHeader
    → List ℕ
    → Execution
    → Option (Execution × Bool)
handle_local_transaction setup digest tx_bytes header required_accounts st =
    if is_ready_to_execute st.account_store st.pending_queues header.id required_accounts
    then (do
      (st', _) ← execute_single_local_transaction setup digest tx_bytes header (count_eager st)
      some (st', true))
    else (do
      st' ← lock_and_enqueue_transaction digest tx_bytes header required_accounts local st
      some (st', false))

unfoldable pub handle_migrate_out_transaction :
    Digest
    → List ℕ
    → TransactionHeader
    → List ℕ
    → List ℕ
    → ℕ
    → Execution
    → Option (Execution × Bool)
handle_migrate_out_transaction digest tx_bytes header accounts others_accounts dest_executor_id st =
    if is_ready_to_execute st.account_store st.pending_queues header.id accounts
    then (do
      _ ← parse_smallbank_payload tx_bytes
      st' ← execute_migrate_out header accounts dest_executor_id (count_eager st)
      some (st', true))
    else (do
      st' ←
          lock_and_enqueue_transaction digest tx_bytes header []
            (migrate_out accounts others_accounts dest_executor_id) st
      some (st', false))

unfoldable pub handle_transaction_by_locality :
    ExecutorSetup
    → Digest
    → List ℕ
    → TransactionHeader
    → List ℕ
    → TransactionLocality
    → Execution
    → Option (Execution × Bool)
handle_transaction_by_locality setup digest tx_bytes header required_accounts locality st =
    elim locality [
      | local ↦ handle_local_transaction setup digest tx_bytes header required_accounts st
      | migrate_out accounts others_accounts dest_executor_id ↦
          handle_migrate_out_transaction digest tx_bytes header accounts others_accounts
            dest_executor_id st
      | migrate_in accounts ↦ (do
        st' ←
            lock_and_enqueue_transaction digest tx_bytes header required_accounts
              (migrate_in accounts) st
        some (st', false))
      | others _ ↦ some (
        record st {
          lock_stats = record st.lock_stats {
            total_transactions = st.lock_stats.total_transactions - 1;
          };
        },
        false,
      )
    ]

-- The transactions with their executors, by the scheduler in use.
unfoldable pub scheduled_by : ExecutorSetup → List (List ℕ) → Execution → Option (List Scheduled)
scheduled_by setup transactions st =
    if setup.use_new_scheduler
    then (do
      (result, _) ←
          schedule_new (setup.max_allowed (length transactions)) st.states_schedule_partition []
            (zero_loads setup.num_executors) transactions
      some result)
    else schedule_old st.states_schedule_partition transactions

unfoldable pub parse_and_schedule_batch_transactions :
    ExecutorSetup → List (List ℕ) → Execution → Option (Execution × List Scheduled)
parse_and_schedule_batch_transactions setup transactions st = do
  parsed ← scheduled_by setup transactions st
  some (record st { scheduled_tx_count = st.scheduled_tx_count + length parsed }, parsed)

-- Loop 1: the locality of each transaction, and the partition afterwards.
unfoldable pub localities_of :
    ℕ → List Scheduled → Partition → Option (Partition × List (Scheduled × TransactionLocality))
unfolding determine_locality update_partition_for_locality
localities_of executor_id [] partition = some (partition, [])
localities_of executor_id (tx ∷ txs) partition =
    elim (determine_locality executor_id partition tx.required_accounts tx.target) [
      | none ↦ none
      | some locality ↦
          elim (localities_of executor_id txs
            (update_partition_for_locality executor_id partition locality tx.required_accounts)) [
              | none ↦ none
              | some (last, localities) ↦ some (last, (tx, locality) ∷ localities)
            ]
    ]

-- Loop 2.
unfoldable pub execute_each :
    ExecutorSetup → Digest → List (Scheduled × TransactionLocality) → Execution → Option Execution
unfolding handle_transaction_by_locality
execute_each setup digest [] st = some st
execute_each setup digest ((tx, locality) ∷ txs) st =
    let counted = record st {
      lock_stats = record st.lock_stats {
        total_transactions = st.lock_stats.total_transactions + 1;
      };
    } in
    elim (handle_transaction_by_locality setup digest tx.tx_bytes tx.header tx.required_accounts
      locality counted) [ none ↦ none | some (st', _) ↦ execute_each setup digest txs st' ]

unfoldable pub execute_batch : ExecutorSetup → Digest → List (List ℕ) → Execution → Option Execution
unfolding update_queue_depths
execute_batch setup digest transactions st = do
  (parsed, parsed_txs) ← parse_and_schedule_batch_transactions setup transactions st
  (partition, localities) ←
      localities_of setup.executor_id parsed_txs parsed.states_schedule_partition
  executed ←
      execute_each setup digest localities (record parsed { states_schedule_partition = partition })
  st' ← process_incoming_transfers setup executed
  some (record st' { lock_stats = update_queue_depths st'.lock_stats st'.pending_queues })
