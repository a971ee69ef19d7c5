-- ===== src/Worker/BatchExecutor/Conserved/Batches.antt =====
-- worker/src/batch_executor.rs: an executor neither loses nor doubles an account, whatever it executes.
use dag_bft_sigmod.Base.{
  ℕ, ◌+◌, Bool, some, List, [], ◌∷◌, ◌≡◌, inl, inr, refl, subst, arith, nat_eq, Bool-cases,
  Option-cases,
}
use dag_bft_sigmod.Primary.Errors.{Digest}
use dag_bft_sigmod.Worker.Transaction.{TransactionHeader, parse_smallbank_payload}
use dag_bft_sigmod.Worker.BatchExecutor.{
  Execution, ExecutorSetup, TransactionLocality, local, migrate_out, migrate_in, others,
}
use dag_bft_sigmod.Worker.BatchExecutor.Scheduler.{Scheduled}
use dag_bft_sigmod.Worker.BatchExecutor.Queues.{is_ready_to_execute, lock_and_enqueue_transaction}
use dag_bft_sigmod.Worker.BatchExecutor.Execute.{
  execute_single_local_transaction, execute_migrate_out,
}
use dag_bft_sigmod.Worker.BatchExecutor.Batches.{
  count_eager, handle_local_transaction, handle_migrate_out_transaction,
  handle_transaction_by_locality, execute_each,
}
use dag_bft_sigmod.Worker.BatchExecutor.Conserved.{
  count_key, count_sent, Keeps, Keeps-refl, Keeps-trans, Keeps-same,
}
use dag_bft_sigmod.Worker.BatchExecutor.Conserved.Execute.{
  execute_single-Keeps, execute_migrate_out-Keeps,
}

-- A transaction that waits changes no account.
lock_and_enqueue-Keeps :
    (k : ℕ) (digest : Digest) (bytes : List ℕ) (header : TransactionHeader) (required : List ℕ)
    (locality : TransactionLocality) (st st' : Execution)
    → lock_and_enqueue_transaction digest bytes header required locality st ≡ some st'
    → Keeps k st st'
unfolding lock_and_enqueue_transaction
lock_and_enqueue-Keeps k digest bytes header required locality st st' h =
    let (store, incoming, drained, out) = same_fields locality h in
    Keeps-same k st st' store incoming drained out
  where
    same_fields :
        (l : TransactionLocality)
        → lock_and_enqueue_transaction digest bytes header required l st ≡ some st'
        → (count_key k st'.account_store ≡ count_key k st.account_store)
          × (st'.incoming_transfers ≡ st.incoming_transfers)
          × (st'.drained_incoming_transfers ≡ st.drained_incoming_transfers)
          × (count_sent k st'.sent ≡ count_sent k st.sent)
    same_fields local e = elim (Option-cases (parse_smallbank_payload bytes)) [
      | inl n ↦ absurd (ground arith)
      | inr (t, p) ↦ ground arith
    ]
    same_fields (migrate_out accounts other dest) e =
        elim (Option-cases (parse_smallbank_payload bytes)) [
          | inl n ↦ absurd (ground arith)
          | inr (t, p) ↦ ground arith
        ]
    same_fields (migrate_in accounts) e = elim (Option-cases (parse_smallbank_payload bytes)) [
      | inl n ↦ absurd (ground arith)
      | inr (t, p) ↦ ground arith
    ]
    same_fields (others target) e = elim (Option-cases (parse_smallbank_payload bytes)) [
      | inl n ↦ absurd (ground arith)
      | inr (t, p) ↦ absurd (ground arith)
    ]

handle_local-Keeps :
    (k : ℕ) (setup : ExecutorSetup) (digest : Digest) (bytes : List ℕ) (header : TransactionHeader)
    (required : List ℕ) (st st' : Execution) (done : Bool)
    → handle_local_transaction setup digest bytes header required st ≡ some (st', done)
    → Keeps k st st'
unfolding handle_local_transaction
handle_local-Keeps k setup digest bytes header required st st' done h =
    elim (Bool-cases (is_ready_to_execute st.account_store st.pending_queues header.id required)) [
      | inl ready ↦
          elim (Option-cases
            (execute_single_local_transaction setup digest bytes header (count_eager st))) [
              | inl n ↦ absurd (ground arith)
              | inr ((t, success), e) ↦
                  let same : t ≡ st' = ground arith in
                  subst (Keeps k st) same (
                    Keeps-trans k st (count_eager st) t
                      (Keeps-same k st (count_eager st) refl refl refl refl)
                      (execute_single-Keeps k setup digest bytes header (count_eager st) t success
                        e))
            ]
      | inr locked ↦
          elim (Option-cases (lock_and_enqueue_transaction digest bytes header required local st)) [
            | inl n ↦ absurd (ground arith)
            | inr (t, e) ↦
                let same : t ≡ st' = ground arith in
                subst (Keeps k st) same
                  (lock_and_enqueue-Keeps k digest bytes header required local st t e)
          ]
    ]

handle_migrate_out-Keeps :
    (k : ℕ) (digest : Digest) (bytes : List ℕ) (header : TransactionHeader)
    (accounts other : List ℕ) (dest : ℕ) (st st' : Execution) (done : Bool)
    → handle_migrate_out_transaction digest bytes header accounts other dest st ≡ some (st', done)
    → Keeps k st st'
unfolding handle_migrate_out_transaction
handle_migrate_out-Keeps k digest bytes header accounts other dest st st' done h =
    elim (Bool-cases (is_ready_to_execute st.account_store st.pending_queues header.id accounts)) [
      | inl ready ↦ elim (Option-cases (parse_smallbank_payload bytes)) [
        | inl n ↦ absurd (ground arith)
        | inr (tx, p) ↦
            elim (Option-cases (execute_migrate_out header accounts dest (count_eager st))) [
              | inl n ↦ absurd (ground arith)
              | inr (t, e) ↦
                  let same : t ≡ st' = ground arith in
                  subst (Keeps k st) same (
                    Keeps-trans k st (count_eager st) t
                      (Keeps-same k st (count_eager st) refl refl refl refl)
                      (execute_migrate_out-Keeps k header accounts dest (count_eager st) t e))
            ]
      ]
      | inr locked ↦
          elim (Option-cases (
            lock_and_enqueue_transaction digest bytes header [] (migrate_out accounts other dest)
              st)) [
                | inl n ↦ absurd (ground arith)
                | inr (t, e) ↦
                    let same : t ≡ st' = ground arith in
                    subst (Keeps k st) same (
                      lock_and_enqueue-Keeps k digest bytes header []
                        (migrate_out accounts other dest) st t e)
              ]
    ]

handle_by_locality-Keeps :
    (k : ℕ) (setup : ExecutorSetup) (digest : Digest) (bytes : List ℕ) (header : TransactionHeader)
    (required : List ℕ) (locality : TransactionLocality) (st st' : Execution) (done : Bool)
    → handle_transaction_by_locality setup digest bytes header required locality st
      ≡ some (st', done)
    → Keeps k st st'
unfolding handle_transaction_by_locality
handle_by_locality-Keeps k setup digest bytes header required local st st' done h =
    handle_local-Keeps k setup digest bytes header required st st' done h
handle_by_locality-Keeps k setup digest bytes header required (migrate_out accounts other dest) st
      st' done h =
    handle_migrate_out-Keeps k digest bytes header accounts other dest st st' done h
handle_by_locality-Keeps k setup digest bytes header required (migrate_in accounts) st st' done h =
    elim (Option-cases
      (lock_and_enqueue_transaction digest bytes header required (migrate_in accounts) st)) [
        | inl n ↦ absurd (ground arith)
        | inr (t, e) ↦
            let same : t ≡ st' = ground arith in
            subst (Keeps k st) same
              (lock_and_enqueue-Keeps k digest bytes header required (migrate_in accounts) st t e)
      ]
handle_by_locality-Keeps k setup digest bytes header required (others target) st st' done h =
    Keeps-same k st st' (ground arith) (ground arith) (ground arith) (ground arith)

pub execute_each-Keeps :
    (k : ℕ) (setup : ExecutorSetup) (digest : Digest) (txs : List (Scheduled × TransactionLocality))
    (st st' : Execution)
    → execute_each setup digest txs st ≡ some st'
    → Keeps k st st'
unfolding execute_each
execute_each-Keeps k setup digest [] st st' h =
    let same : st ≡ st' = ground arith in subst (Keeps k st) same (Keeps-refl k st)
execute_each-Keeps k setup digest ((tx, locality) ∷ txs) st st' h =
    let counted : Execution = record st {
      lock_stats = record st.lock_stats {
        total_transactions = st.lock_stats.total_transactions + 1;
      };
    } in
    elim (Option-cases (
      handle_transaction_by_locality setup digest tx.tx_bytes tx.header tx.required_accounts
        locality counted)) [
          | inl n ↦ absurd (ground arith)
          | inr ((t, done), e) ↦
              Keeps-trans k st counted st' (Keeps-same k st counted refl refl refl refl) (
                Keeps-trans k counted t st'
                  (handle_by_locality-Keeps k setup digest tx.tx_bytes tx.header
                    tx.required_accounts locality counted t done e)
                  (execute_each-Keeps k setup digest txs t st' (ground arith)))
        ]
