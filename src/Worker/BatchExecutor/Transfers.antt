-- ===== src/Worker/BatchExecutor/Transfers.antt =====
-- worker/src/batch_executor.rs: the accounts that arrive from other executors. `none` is a panic. The
-- transactions are taken in the order of the list, where the code takes its map's.
use dag_bft_sigmod.Base.{
  ℕ, Bool, true, false, ◌&&◌, ◌||◌, Option, none, some, List, [], ◌∷◌, ◌++◌, if◌then◌else◌, length,
  ◌==◌, contains, nat_eq, map,
}
use dag_bft_sigmod.Base.Maps.{Map, lookup, insert, remove, contains_key, get_or, keys}
use dag_bft_sigmod.Worker.Account.{AccountStore}
use dag_bft_sigmod.Worker.Transaction.{TxId}
use dag_bft_sigmod.Worker.BatchExecutor.{
  Execution, ExecutorSetup, local, migrate_out, migrate_in, others, StateTransfer, tx_id_beq,
  tx_id_eq, ◌>>=◌,
}
use dag_bft_sigmod.Worker.BatchExecutor.Queues.{
  Queues, is_enqueued_at_head, pop_transaction_from_accounts,
}
use dag_bft_sigmod.Worker.BatchExecutor.Execute.{
  execute_single_local_transaction, drain_pending_queues,
}

-- The transfers that arrived are added to those that arrived before.
unfoldable pub extend_transfers :
    Map TxId (List StateTransfer) → Map TxId (List StateTransfer) → Map TxId (List StateTransfer)
unfolding lookup insert
extend_transfers [] transfers = transfers
extend_transfers ((tx_id, arrived) ∷ later) transfers =
    extend_transfers later (insert tx_id (get_or [] (lookup tx_id transfers) ++ arrived) transfers)

unfoldable pub are_all_heads : Queues → TxId → List ℕ → Option Bool
unfolding is_enqueued_at_head
are_all_heads queues tx_id [] = some true
are_all_heads queues tx_id (acc ∷ accounts) = elim (is_enqueued_at_head queues acc tx_id) [
  | none ↦ none
  | some false ↦ some false
  | some true ↦ are_all_heads queues tx_id accounts
]

unfoldable pub are_all_in_store : List ℕ → AccountStore → List ℕ → Bool
unfolding contains lookup
are_all_in_store migrating_ids store [] = true
are_all_in_store migrating_ids store (acc ∷ accounts) =
    (contains migrating_ids acc || contains_key acc store)
    && are_all_in_store migrating_ids store accounts

unfoldable pub arrive : List StateTransfer → AccountStore → AccountStore
unfolding insert
arrive [] store = store
arrive (st ∷ transfers) store =
    arrive transfers (insert st.src_account_id st.src_account_state store)

-- What becomes of the transfers of a transaction: the accounts that it awaits and that it needs, if it is at
-- the head of the queue of the first account.
unfoldable pub awaiting_head :
    Queues → TxId → List StateTransfer → Option (Option (List (ℕ × ℕ) × List ℕ))
unfolding lookup
awaiting_head queues tx_id [] = none
awaiting_head queues tx_id (first ∷ transfers) = elim (lookup first.src_account_id queues) [
  | none ↦ some none
  | some q ↦ elim q [
    | [] ↦ some none
    | head ∷ _ ↦
        if tx_id_beq head.tx_header.id tx_id
        then elim head.locality [
          | migrate_in accounts ↦ some (some (accounts, head.required_accounts))
          | local ↦ none
          | migrate_out _ _ _ ↦ none
          | others _ ↦ none
        ]
        else some none
  ]
]

-- All the accounts are there: the transaction leaves its queues and is executed.
unfoldable pub take_transfers :
    ExecutorSetup
    → TxId
    → List StateTransfer
    → List ℕ
    → Execution
    → List ℕ
    → Option (Execution × List ℕ)
take_transfers setup tx_id transfers required_accounts st unlocked = do
  (queues, pending_tx) ← pop_transaction_from_accounts st.pending_queues required_accounts tx_id
  (st', _) ←
      execute_single_local_transaction setup pending_tx.batch_digest pending_tx.tx_bytes
        pending_tx.tx_header
        (record st {
          drained_incoming_transfers = remove tx_id st.drained_incoming_transfers;
          pending_queues = queues;
          account_store = arrive transfers st.account_store;
        })
  some (st', unlocked ++ pending_tx.required_accounts)

-- One turn of the loop over the transactions: the state and the accounts that were unlocked.
unfoldable pub process_transfer :
    ExecutorSetup → TxId → Execution → List ℕ → Option (Execution × List ℕ)
unfolding lookup
process_transfer setup tx_id st unlocked = do
  transfers ← lookup tx_id st.drained_incoming_transfers
  head_info ← awaiting_head st.pending_queues tx_id transfers
  elim head_info [
    | none ↦ some (st, unlocked)
    | some (migrating_accounts, required_accounts) ↦
        let migrating_ids = map (λ x. x.0) migrating_accounts in
        if length transfers == length migrating_accounts
        then elim (are_all_heads st.pending_queues tx_id required_accounts) [
          | none ↦ none
          | some at_all_heads ↦
              if at_all_heads && are_all_in_store migrating_ids st.account_store required_accounts
              then take_transfers setup tx_id transfers required_accounts st unlocked
              else some (st, unlocked)
        ]
        else some (st, unlocked)
  ]

unfoldable pub process_transfers :
    ExecutorSetup → List TxId → Execution → List ℕ → Option (Execution × List ℕ)
unfolding process_transfer
process_transfers setup [] st unlocked = some (st, unlocked)
process_transfers setup (tx_id ∷ tx_ids) st unlocked =
    elim (process_transfer setup tx_id st unlocked) [
      | none ↦ none
      | some (st', unlocked') ↦ process_transfers setup tx_ids st' unlocked'
    ]

unfoldable pub process_incoming_transfers : ExecutorSetup → Execution → Option Execution
process_incoming_transfers setup st = do
  let drained = extend_transfers st.incoming_transfers st.drained_incoming_transfers
  (st', unlocked) ←
      process_transfers setup (keys drained)
        (record st { incoming_transfers = []; drained_incoming_transfers = drained }) []
  elim unlocked [ [] ↦ some st' | x ∷ xs ↦ drain_pending_queues setup (x ∷ xs) st' ]
