-- ===== src/Worker/BatchExecutor/Execute.antt =====
-- worker/src/batch_executor.rs: the execution of a transaction and the drain of the queues. `none` is
-- a panic. A channel whose receiver is gone is not modelled.
pub mod Drain
pub mod Payment
pub mod Handover
use dag_bft_sigmod.Base.{
  ℕ, zero, suc, ◌+◌, ◌*◌, Bool, true, false, not, Option, none, some, List, [], ◌∷◌, ◌++◌,
  if◌then◌else◌, length, contains, nat_eq, ◌==◌,
}
use dag_bft_sigmod.Base.Maps.{Map, lookup, insert, remove}
use dag_bft_sigmod.Config.{client_reply_address}
use dag_bft_sigmod.Primary.Errors.{Digest}
use dag_bft_sigmod.Worker.Account.{
  Float, AccountState, AccountStore, execute_deposit_checking, execute_transact_savings,
  execute_write_check, execute_send_payment_debit, execute_send_payment_credit,
}
use dag_bft_sigmod.Worker.Workload.{
  SmallBankTxType, SmallBankTransaction, balance, deposit_checking, transact_savings, write_check,
  send_payment,
}
use dag_bft_sigmod.Worker.Transaction.{TxId, TransactionHeader, is_sample, parse_smallbank_payload}
use dag_bft_sigmod.Worker.BatchExecutor.{
  Execution, ExecutorSetup, PendingTransaction, TransactionLocality, local, migrate_out, migrate_in,
  others, ClientReplyRequest, StateTransfer, ExecutorOutput, client_reply, send_state, ◌>>=◌,
}
use dag_bft_sigmod.Worker.BatchExecutor.Queues.{
  Queues, ExecutableQueueHead, get_executable_queue_head, pop_transaction_from_accounts,
  remove_if_empty,
}

-- An operation on the account, if the store has it.
unfoldable pub update_account :
    ℕ → (AccountState → AccountState × Bool) → AccountStore → Option (AccountStore × Bool)
unfolding lookup insert
update_account account_id f store = do
  account ← lookup account_id store
  let (account', success) = f account
  some (insert account_id account' store, success)

unfoldable pub send_payment_in :
    Float → SmallBankTransaction → AccountStore → Option (AccountStore × Bool)
send_payment_in float sb_tx store = do
  dest ← lookup sb_tx.dest_account_id store
  (debited, success) ←
      update_account sb_tx.account_id (λ a. execute_send_payment_debit float a sb_tx.amount) store
  elim success [
    | false ↦ some (debited, false)
    | true ↦
        update_account sb_tx.dest_account_id
          (λ a. (execute_send_payment_credit float a sb_tx.amount, true)) debited
  ]

-- `// Execute transaction`: the accounts afterwards, and the success.
unfoldable pub apply_transaction :
    Float → SmallBankTransaction → AccountStore → Option (AccountStore × Bool)
apply_transaction float sb_tx store = elim sb_tx.tx_type [
  | balance ↦ update_account sb_tx.account_id (λ a. (a, true)) store
  | deposit_checking ↦
      update_account sb_tx.account_id (λ a. execute_deposit_checking float a sb_tx.amount) store
  | transact_savings ↦
      update_account sb_tx.account_id (λ a. execute_transact_savings float a sb_tx.amount) store
  | write_check ↦
      update_account sb_tx.account_id (λ a. execute_write_check float a sb_tx.amount) store
  | send_payment ↦ send_payment_in float sb_tx store
]

-- The reply to the client, only for a sample transaction of a client of the committee.
unfoldable pub reply_to :
    ExecutorSetup
    → Digest
    → TransactionHeader
    → SmallBankTransaction
    → Bool
    → AccountStore
    → Bool × List ExecutorOutput
unfolding lookup client_reply_address
reply_to setup digest header sb_tx success store =
    if is_sample header
    then elim (client_reply_address setup.committee header.id.region_id) [
      | none ↦ (false, [])
      | some addr ↦ (
        success,
        client_reply (record {
          batch_digest = digest;
          client_addr = addr;
          tx_type = header.tx_type;
          tx_id = header.id;
          success = success;
          account_id = sb_tx.account_id;
          account_state = lookup sb_tx.account_id store;
        })
            ∷ [],
      )
    ]
    else (success, [])

unfoldable pub execute_single_local_transaction :
    ExecutorSetup → Digest → List ℕ → TransactionHeader → Execution → Option (Execution × Bool)
unfolding reply_to
execute_single_local_transaction setup digest tx_bytes header st =
    let counted = record st { executed_tx_count = st.executed_tx_count + 1 } in
    elim (parse_smallbank_payload tx_bytes) [
      | none ↦ some (counted, false)
      | some sb_tx ↦ (do
        (store, success) ← apply_transaction setup.float sb_tx st.account_store
        let (result, replies) = reply_to setup digest header sb_tx success store
        some (record counted { account_store = store; sent = st.sent ++ replies }, result))
    ]

-- An account leaves the store and is sent to the destination.
abbrev pub send_account : TxId → ℕ → AccountState → ℕ → Execution → Execution
send_account tx_id account account_state dest_executor_id st = record st {
  account_store = remove account st.account_store;
  sent =
      st.sent
      ++ (send_state
            (record { tx_id = tx_id; src_account_id = account; src_account_state = account_state })
            dest_executor_id
          ∷ []);
}

unfoldable pub execute_migrate_out : TransactionHeader → List ℕ → ℕ → Execution → Option Execution
unfolding lookup remove
execute_migrate_out header [] dest_executor_id st = some st
execute_migrate_out header (account ∷ accounts) dest_executor_id st =
    elim (lookup account st.account_store) [
      | none ↦ none
      | some account_state ↦
          execute_migrate_out header accounts dest_executor_id
            (send_account header.id account account_state dest_executor_id st)
    ]

-- The worklist is a set, in the order of its iteration.
unfoldable pub extend_worklist : List ℕ → List ℕ → List ℕ
unfolding contains
extend_worklist worklist [] = worklist
extend_worklist worklist (account ∷ accounts) =
    extend_worklist (if contains worklist account then worklist else worklist ++ (account ∷ []))
      accounts

-- The transaction at the head of a queue leaves its queues and is executed: the state and the worklist.
unfoldable pub run_head :
    ExecutorSetup
    → TxId
    → List ℕ
    → TransactionLocality
    → List ℕ
    → Execution
    → Option (Execution × List ℕ)
run_head setup tx_id required_accounts (migrate_out accounts _ dest_executor_id) worklist st = do
  (queues, pending_tx) ← pop_transaction_from_accounts st.pending_queues accounts tx_id
  st' ←
      execute_migrate_out pending_tx.tx_header accounts dest_executor_id
        (record st { pending_queues = queues })
  some (st', worklist)
run_head setup tx_id required_accounts local worklist st = do
  (queues, pending_tx) ← pop_transaction_from_accounts st.pending_queues required_accounts tx_id
  (st', _) ←
      execute_single_local_transaction setup pending_tx.batch_digest pending_tx.tx_bytes
        pending_tx.tx_header (record st { pending_queues = queues })
  some (st', extend_worklist worklist pending_tx.required_accounts)
run_head setup tx_id required_accounts (migrate_in _) worklist st = none
run_head setup tx_id required_accounts (others _) worklist st = none

-- What a drain ends in: it is done, it panicked, or the fuel was not enough.
pub data Drained : Type 0 where
  drained : Execution → Drained
  panicked : Drained
  exhausted : Drained

-- The two loops of `drain_pending_queues`: the inner loop when there is a current account.
unfoldable pub drain : ℕ → ExecutorSetup → Option ℕ → List ℕ → Execution → Drained
unfolding run_head
drain zero setup current worklist st = exhausted
drain (suc fuel) setup none [] st = drained st
drain (suc fuel) setup none (account_id ∷ worklist) st =
    drain fuel setup (some account_id) worklist st
drain (suc fuel) setup (some account_id) worklist st =
    elim (get_executable_queue_head st.account_store st.pending_queues account_id) [
      | none ↦ panicked
      | some none ↦
          drain fuel setup none worklist
            (record st { pending_queues = remove_if_empty account_id st.pending_queues })
      | some (some head) ↦
          elim (run_head setup head.tx_id head.required_accounts head.locality worklist st) [
            | none ↦ panicked
            | some (st', worklist') ↦ drain fuel setup (some account_id) worklist' st'
          ]
    ]

-- The turns that the queues and the worklist can take.
unfoldable pub queue_turns : List PendingTransaction → ℕ
queue_turns [] = 0
queue_turns (tx ∷ q) = suc (2 * length tx.required_accounts) + queue_turns q

unfoldable pub all_turns : Queues → ℕ
unfolding queue_turns
all_turns [] = 0
all_turns ((account, q) ∷ queues) = queue_turns q + all_turns queues

unfoldable pub drain_fuel : List ℕ → Queues → ℕ
unfolding all_turns
drain_fuel worklist queues = suc (2 * length worklist + all_turns queues)

unfoldable pub drain_pending_queues : ExecutorSetup → List ℕ → Execution → Option Execution
drain_pending_queues setup initial_unlocked st =
    let worklist = extend_worklist [] initial_unlocked in
    elim (drain (drain_fuel worklist st.pending_queues) setup none worklist st) [
      | drained st' ↦ some st'
      | panicked ↦ none
      | exhausted ↦ none
    ]
