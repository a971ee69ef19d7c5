-- ===== src/Worker/BatchExecutor/Queues.antt =====
-- worker/src/batch_executor.rs: the queues of transactions that wait for an account.
use dag_bft_sigmod.Base.{
  ℕ, ◌+◌, Bool, true, false, ◌&&◌, Option, none, some, List, [], ◌∷◌, ◌++◌, if◌then◌else◌, ltb,
  length, nat_eq,
}
use dag_bft_sigmod.Base.Maps.{Map, lookup, insert, remove, contains_key, get_or}
use dag_bft_sigmod.Primary.Errors.{Digest}
use dag_bft_sigmod.Worker.Account.{AccountStore}
use dag_bft_sigmod.Worker.Transaction.{TxId, TransactionHeader, parse_smallbank_payload}
use dag_bft_sigmod.Worker.BatchExecutor.{
  Execution, PendingTransaction, TransactionLocality, local, migrate_out, migrate_in, others,
  LockStatistics, tx_id_beq, ◌>>=◌,
}

abbrev pub Queues : Type 0
Queues = Map ℕ (List PendingTransaction)

abbrev pub front : List PendingTransaction → Option PendingTransaction
front [] = none
front (x ∷ q) = some x

unfoldable pub is_account_unlocked_or_head : Queues → ℕ → TxId → Bool
unfolding lookup
is_account_unlocked_or_head queues account tx_id = elim (lookup account queues) [
  | none ↦ true
  | some q ↦ elim q [ [] ↦ false | h ∷ _ ↦ tx_id_beq h.tx_header.id tx_id ]
]

unfoldable pub is_ready_to_execute : AccountStore → Queues → TxId → List ℕ → Bool
unfolding lookup is_account_unlocked_or_head
is_ready_to_execute store queues tx_id [] = true
is_ready_to_execute store queues tx_id (acc ∷ accounts) =
    (contains_key acc store && is_account_unlocked_or_head queues acc tx_id)
    && is_ready_to_execute store queues tx_id accounts

unfoldable pub is_enqueued_at_head : Queues → ℕ → TxId → Option Bool
unfolding lookup
is_enqueued_at_head queues account tx_id = elim (lookup account queues) [
  | none ↦ none
  | some q ↦ elim q [ [] ↦ none | h ∷ _ ↦ some (tx_id_beq h.tx_header.id tx_id) ]
]

-- The loop of `pop_transaction_from_accounts`: the queues and the last transaction that was popped.
unfoldable pub pop_each :
    TxId → List ℕ → Queues → Option PendingTransaction → Option (Queues × Option PendingTransaction)
unfolding lookup insert
pop_each tx_id [] queues popped = some (queues, popped)
pop_each tx_id (account ∷ accounts) queues popped = elim (lookup account queues) [
  | none ↦ none
  | some q ↦ elim q [
    | [] ↦ none
    | tx ∷ later ↦ elim (tx_id_beq tx.tx_header.id tx_id) [
      | false ↦ none
      | true ↦ pop_each tx_id accounts (insert account later queues) (some tx)
    ]
  ]
]

abbrev pub is_empty : List PendingTransaction → Bool
is_empty [] = true
is_empty (x ∷ q) = false

-- Removes the queue of the account, if it is empty.
unfoldable pub remove_if_empty : ℕ → Queues → Queues
unfolding lookup remove
remove_if_empty account queues = elim (lookup account queues) [
  | none ↦ queues
  | some q ↦ if is_empty q then remove account queues else queues
]

unfoldable pub remove_empty : List ℕ → Queues → Queues
unfolding remove_if_empty
remove_empty [] queues = queues
remove_empty (account ∷ accounts) queues = remove_empty accounts (remove_if_empty account queues)

unfoldable pub pop_transaction_from_accounts :
    Queues → List ℕ → TxId → Option (Queues × PendingTransaction)
unfolding pop_each remove_empty
pop_transaction_from_accounts queues accounts tx_id = do
  (popped_from, last) ← pop_each tx_id accounts queues none
  pending_tx ← last
  some (remove_empty accounts popped_from, pending_tx)

unfoldable pub push_back : ℕ → PendingTransaction → Queues → Queues
unfolding lookup insert
push_back account tx queues = insert account (get_or [] (lookup account queues) ++ (tx ∷ [])) queues

unfoldable pub enqueue : List ℕ → PendingTransaction → Queues → Queues
unfolding push_back
enqueue [] tx queues = queues
enqueue (account ∷ accounts) tx queues = enqueue accounts tx (push_back account tx queues)

unfoldable pub lock_and_enqueue_transaction :
    Digest
    → List ℕ
    → TransactionHeader
    → List ℕ
    → TransactionLocality
    → Execution
    → Option Execution
unfolding parse_smallbank_payload enqueue
lock_and_enqueue_transaction digest tx_bytes header required_accounts locality st = do
  sb_tx ← parse_smallbank_payload tx_bytes
  local_accounts ← elim locality [
    | local ↦ some required_accounts
    | migrate_out accounts _ _ ↦ some accounts
    | migrate_in _ ↦ some required_accounts
    | others _ ↦ none
  ]
  let pending_tx : PendingTransaction = record {
    tx_bytes = tx_bytes;
    tx_header = header;
    sb_tx = sb_tx;
    batch_digest = digest;
    required_accounts = required_accounts;
    locality = locality;
  }
  some (record st {
    pending_queues = enqueue local_accounts pending_tx st.pending_queues;
    lock_stats = record st.lock_stats { lock_hits = st.lock_stats.lock_hits + 1 };
  })

pub record ExecutableQueueHead : Type 0 where
  pub tx_id : TxId
  pub required_accounts : List ℕ
  pub locality : TransactionLocality

-- The outer `none` is a panic.
unfoldable pub get_executable_queue_head :
    AccountStore → Queues → ℕ → Option (Option ExecutableQueueHead)
unfolding lookup is_ready_to_execute
get_executable_queue_head store queues account_id = elim (lookup account_id queues) [
  | none ↦ some none
  | some q ↦ elim q [
    | [] ↦ some none
    | pending_tx ∷ _ ↦
        let head : ExecutableQueueHead = record {
          tx_id = pending_tx.tx_header.id;
          required_accounts = pending_tx.required_accounts;
          locality = pending_tx.locality;
        } in
        elim pending_tx.locality [
          | migrate_out accounts _ _ ↦
              some
                (if is_ready_to_execute store queues head.tx_id accounts then some head else none)
          | migrate_in _ ↦ some none
          | others _ ↦ none
          | local ↦ some (
              if is_ready_to_execute store queues head.tx_id head.required_accounts
              then some head
              else none)
        ]
  ]
]

-- `LockStatistics::update_queue_depths`: the totals, and the deepest queue so far.
unfoldable pub queue_depths : Queues → ℕ × (ℕ × ℕ) → ℕ × (ℕ × ℕ)
queue_depths [] found = found
queue_depths ((acc_id, queue) ∷ queues) (total_depth, deepest) =
    let depth = length queue in
    queue_depths queues
      (total_depth + depth, if ltb deepest.0 depth then (depth, acc_id) else deepest)

unfoldable pub update_queue_depths : LockStatistics → Queues → LockStatistics
unfolding queue_depths
update_queue_depths stats queues =
    let (total_depth, deepest) = queue_depths queues (0, stats.max_single_queue_depth) in
    record stats {
      max_single_queue_depth = deepest;
      current_queue_depth = total_depth;
      max_total_queue_depth =
          if ltb stats.max_total_queue_depth total_depth
          then total_depth
          else stats.max_total_queue_depth;
    }
