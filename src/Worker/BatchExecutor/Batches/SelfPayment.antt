-- ===== src/Worker/BatchExecutor/Batches/SelfPayment.antt =====
-- worker/src/batch_executor.rs: a payment to the account that pays, with another executor as its target.
use dag_bft_sigmod.Base.{
  ℕ, true, none, some, List, [], ◌∷◌, ◌≡◌, ◌≢◌, inl, inr, refl, arith, ==_iff, nat_eq, Option-cases,
}
use dag_bft_sigmod.Base.Maps.{lookup, lookup-remove}
use dag_bft_sigmod.Primary.Errors.{Digest}
use dag_bft_sigmod.Worker.Transaction.{TxId, TransactionHeader, parse_smallbank_payload}
use dag_bft_sigmod.Worker.BatchExecutor.{Execution, ExecutorSetup, Partition, migrate_out}
use dag_bft_sigmod.Worker.BatchExecutor.Locality.{
  get_executor_id_by_partition, owners, missing_accounts, owned_accounts, other_accounts,
  locality_of, determine_locality,
}
use dag_bft_sigmod.Worker.BatchExecutor.Queues.{is_ready_to_execute, pop_transaction_from_accounts}
use dag_bft_sigmod.Worker.BatchExecutor.Execute.{execute_migrate_out, run_head}
use dag_bft_sigmod.Worker.BatchExecutor.Batches.{
  count_eager, handle_migrate_out_transaction, handle_transaction_by_locality,
}

-- An account cannot be handed over twice.
execute_migrate_out-twice :
    (header : TransactionHeader) (a dest : ℕ) (st : Execution)
    → execute_migrate_out header (a ∷ a ∷ []) dest st ≡ none
unfolding execute_migrate_out
execute_migrate_out-twice header a dest st = elim (Option-cases (lookup a st.account_store)) [
  | inl n ↦ rw (execute_migrate_out, n) refl
  | inr (state, l) ↦ ground (arith, lookup-remove a a st.account_store, ==_iff a a)
]

self_payment-locality :
    (e target a : ℕ) (p : Partition)
    → lookup a p ≡ some e
    → e ≢ target
    → determine_locality e p (a ∷ a ∷ []) target ≡ some (migrate_out (a ∷ a ∷ []) [] target)
unfolding determine_locality owners locality_of missing_accounts owned_accounts other_accounts
    get_executor_id_by_partition
self_payment-locality e target a p owner h = ground (arith, ==_iff target e, ==_iff e e)

run_head-twice :
    (setup : ExecutorSetup) (tx_id : TxId) (required worklist : List ℕ) (a target : ℕ)
    (st : Execution)
    → run_head setup tx_id required (migrate_out (a ∷ a ∷ []) [] target) worklist st ≡ none
unfolding run_head
run_head-twice setup tx_id required worklist a target st =
    elim (Option-cases (pop_transaction_from_accounts st.pending_queues (a ∷ a ∷ []) tx_id)) [
      | inl n ↦ rw n refl
      | inr ((queues, tx), e) ↦
          rw
            (
              e,
              execute_migrate_out-twice tx.tx_header a target
                  (record st { pending_queues = queues }),
            )
            refl
    ]

handle_migrate_out-twice :
    (digest : Digest) (bytes : List ℕ) (header : TransactionHeader) (a target : ℕ) (st : Execution)
    → is_ready_to_execute st.account_store st.pending_queues header.id (a ∷ a ∷ []) ≡ true
    → handle_migrate_out_transaction digest bytes header (a ∷ a ∷ []) [] target st ≡ none
unfolding handle_migrate_out_transaction
handle_migrate_out-twice digest bytes header a target st ready =
    elim (Option-cases (parse_smallbank_payload bytes)) [
      | inl n ↦ rw (ready, n) refl
      | inr (tx, e) ↦ rw (ready, e, execute_migrate_out-twice header a target (count_eager st)) refl
    ]

-- A payment from an account to itself whose target is not the executor that owns the account: the
-- owner has to hand the account over twice, and panics, at once if the account is ready, and in a drain
-- of the queues if the transaction has waited.
pub handle_self_payment :
    (setup : ExecutorSetup) (digest : Digest) (bytes : List ℕ) (header : TransactionHeader)
    (a target : ℕ) (required worklist : List ℕ) (st later : Execution)
    → lookup a st.states_schedule_partition ≡ some setup.executor_id
    → setup.executor_id ≢ target
    → is_ready_to_execute st.account_store st.pending_queues header.id (a ∷ a ∷ []) ≡ true
    → let locality = migrate_out (a ∷ a ∷ []) [] target in
      (determine_locality setup.executor_id st.states_schedule_partition (a ∷ a ∷ []) target
        ≡ some locality)
      × (handle_transaction_by_locality setup digest bytes header (a ∷ a ∷ []) locality st ≡ none)
      × (run_head setup header.id required locality worklist later ≡ none)
unfolding handle_transaction_by_locality
handle_self_payment setup digest bytes header a target required worklist st later owner h ready = (
  self_payment-locality setup.executor_id target a st.states_schedule_partition owner h,
  handle_migrate_out-twice digest bytes header a target st ready,
  run_head-twice setup header.id required worklist a target later,
)
