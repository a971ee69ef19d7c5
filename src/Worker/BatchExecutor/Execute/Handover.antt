-- ===== src/Worker/BatchExecutor/Execute/Handover.antt =====
-- worker/src/batch_executor.rs: the accounts that an executor hands over.
use mathlib.Core.List.{append-nil, append_assoc}
use dag_bft_sigmod.Base.{
  ℕ, false, Option, none, some, List, [], ◌∷◌, ◌++◌, ◌≡◌, inl, inr, refl, sym, ap, ap₂, subst, ◌∙◌,
  arith, if◌then◌else◌, ==_iff, contains, nat_eq, Option-cases, Distinct,
}
use dag_bft_sigmod.Base.Maps.{lookup, remove, lookup-remove}
use dag_bft_sigmod.Worker.Account.{AccountState, AccountStore}
use dag_bft_sigmod.Worker.Transaction.{TxId, TransactionHeader}
use dag_bft_sigmod.Worker.BatchExecutor.{Execution, ExecutorOutput, send_state}
use dag_bft_sigmod.Worker.BatchExecutor.Execute.{execute_migrate_out, send_account}

unfoldable pub transfer_of :
    TxId → ℕ → ℕ → Option AccountState → List ExecutorOutput → List ExecutorOutput
transfer_of tx_id dest k none later = later
transfer_of tx_id dest k (some a) later =
    send_state (record { tx_id = tx_id; src_account_id = k; src_account_state = a }) dest ∷ later

-- What an executor sends when it hands over the accounts of the store.
unfoldable pub transfers_of : TxId → ℕ → AccountStore → List ℕ → List ExecutorOutput
unfolding lookup transfer_of
transfers_of tx_id dest store [] = []
transfers_of tx_id dest store (k ∷ accounts) =
    transfer_of tx_id dest k (lookup k store) (transfers_of tx_id dest store accounts)

transfers_of-remove :
    (tx_id : TxId) (dest k : ℕ) (store : AccountStore) (accounts : List ℕ)
    → contains accounts k ≡ false
    → transfers_of tx_id dest (remove k store) accounts ≡ transfers_of tx_id dest store accounts
unfolding transfers_of contains
transfers_of-remove tx_id dest k store [] h = refl
transfers_of-remove tx_id dest k store (j ∷ accounts) h =
    ap₂ (transfer_of tx_id dest j) (ground (arith, lookup-remove k j store, ==_iff k j, ==_iff j k))
      (transfers_of-remove tx_id dest k store accounts (ground arith))

-- Different accounts that are handed over, with no panic: each leaves the store and is sent to the
-- destination with the balances it had, no other account changes, and nothing else is sent.
pub execute_migrate_out-moves :
    (header : TransactionHeader) (accounts : List ℕ) (dest k : ℕ) (st st' : Execution)
    → Distinct accounts
    → execute_migrate_out header accounts dest st ≡ some st'
    → (lookup k st'.account_store
        ≡ (if contains accounts k then none else lookup k st.account_store))
      × (st'.sent ≡ st.sent ++ transfers_of header.id dest st.account_store accounts)
unfolding execute_migrate_out transfers_of contains
execute_migrate_out-moves header [] dest k st st' d h =
    let same : st ≡ st' = ground arith in
    subst (λ t. (lookup k t.account_store ≡ lookup k st.account_store) × (t.sent ≡ st.sent ++ []))
      same (refl, sym (append-nil st.sent))
execute_migrate_out-moves header (j ∷ accounts) dest k st st' d h =
    elim (Option-cases (lookup j st.account_store)) [
      | inl n ↦ absurd (ground arith)
      | inr (a, l) ↦
          let (kept, out) =
            execute_migrate_out-moves header accounts dest k (send_account header.id j a dest st)
              st' d.1 (ground arith) in
          let same = transfers_of-remove header.id dest j st.account_store accounts d.0 in
          let head : ExecutorOutput =
            send_state (record { tx_id = header.id; src_account_id = j; src_account_state = a })
              dest in
          (
            kept ∙ ground (arith, lookup-remove j k st.account_store),
            out
                ∙ (append_assoc st.sent (head ∷ []) _
                    ∙ ap (λ r. st.sent ++ r) (rw (transfer_of, l) (ap (λ r. head ∷ r) same))),
          )
    ]
