-- ===== src/Worker/BatchExecutor/Conserved/Execute.antt =====
-- worker/src/batch_executor.rs: the execution of a transaction and the drain keep the accounts.
use dag_bft_sigmod.Base.{
  ℕ, zero, suc, ◌+◌, ◌≤◌, Bool, true, false, Option, none, some, List, [], ◌∷◌, ◌++◌, ◌≡◌, inl, inr,
  refl, sym, ap, subst, ◌∙◌, arith, ◌==◌, ==_iff, nat_eq, Bool-cases, Option-cases,
}
use dag_bft_sigmod.Base.Maps.{lookup, insert, remove}
use dag_bft_sigmod.Config.{client_reply_address}
use dag_bft_sigmod.Primary.Errors.{Digest}
use dag_bft_sigmod.Worker.Account.{
  Float, AccountState, AccountStore, execute_deposit_checking, execute_transact_savings,
  execute_write_check, execute_send_payment_debit, execute_send_payment_credit,
}
use dag_bft_sigmod.Worker.Workload.{
  SmallBankTxType, SmallBankTransaction, balance, deposit_checking, transact_savings, write_check,
  send_payment,
}
use dag_bft_sigmod.Worker.Transaction.{TxId, TransactionHeader, is_sample, parse_smallbank_payload}
use dag_bft_sigmod.Worker.BatchExecutor.{
  Execution, ExecutorSetup, TransactionLocality, local, migrate_out, migrate_in, others,
  StateTransfer, send_state, tx_id_eq,
}
use dag_bft_sigmod.Worker.BatchExecutor.Queues.{
  Queues, get_executable_queue_head, pop_transaction_from_accounts, remove_if_empty,
}
use dag_bft_sigmod.Worker.BatchExecutor.Execute.{
  update_account, send_payment_in, apply_transaction, reply_to, execute_single_local_transaction,
  send_account, execute_migrate_out, extend_worklist, run_head, Drained, drained, panicked,
  exhausted, drain, drain_fuel, drain_pending_queues,
}
use dag_bft_sigmod.Worker.BatchExecutor.Conserved.{
  count_key, count_sent, held, Keeps, Keeps-refl, Keeps-trans, Keeps-same,
}
use dag_bft_sigmod.Worker.BatchExecutor.Conserved.Accounts.{
  count_key-some, count_key-update, count_key-remove, count_sent-append,
}

count_key-update_account :
    (k j : ℕ) (f : AccountState → AccountState × Bool) (store store' : AccountStore)
    (success : Bool)
    → update_account j f store ≡ some (store', success)
    → count_key k store' ≡ count_key k store
unfolding update_account
count_key-update_account k j f store store' success h = elim (Option-cases (lookup j store)) [
  | inl n ↦ absurd (ground arith)
  | inr (a, l) ↦
      let same : insert j (f a).0 store ≡ store' = ground arith in
      subst (λ m. count_key k m ≡ count_key k store) same (count_key-update k j (f a).0 a store l)
]

count_key-send_payment_in :
    (k : ℕ) (float : Float) (t : SmallBankTransaction) (store store' : AccountStore)
    (success : Bool)
    → send_payment_in float t store ≡ some (store', success)
    → count_key k store' ≡ count_key k store
unfolding send_payment_in
count_key-send_payment_in k float t store store' success h =
    let debit : AccountState → AccountState × Bool =
      λ a. execute_send_payment_debit float a t.amount in
    let credit : AccountState → AccountState × Bool =
      λ a. (execute_send_payment_credit float a t.amount, true) in
    elim (Option-cases (lookup t.dest_account_id store)) [
      | inl n ↦ absurd (ground arith)
      | inr (b, l) ↦ elim (Option-cases (update_account t.account_id debit store)) [
        | inl n ↦ absurd (ground arith)
        | inr ((m, false), u) ↦
            let same : m ≡ store' = ground arith in
            ap (count_key k) (sym same)
            ∙ count_key-update_account k t.account_id debit store m false u
        | inr ((m, true), u) ↦
            let second : update_account t.dest_account_id credit m ≡ some (store', success) =
              ground arith in
            count_key-update_account k t.dest_account_id credit m store' success second
            ∙ count_key-update_account k t.account_id debit store m true u
      ]
    ]

count_key-apply_transaction :
    (k : ℕ) (float : Float) (t : SmallBankTransaction) (store store' : AccountStore)
    (success : Bool)
    → apply_transaction float t store ≡ some (store', success)
    → count_key k store' ≡ count_key k store
unfolding apply_transaction
count_key-apply_transaction k float t store store' success h = apply_as t.tx_type h
  where
    apply_as :
        (tx_type : SmallBankTxType)
        → (elim tx_type [
          | balance ↦ update_account t.account_id (λ a. (a, true)) store
          | deposit_checking ↦
              update_account t.account_id (λ a. execute_deposit_checking float a t.amount) store
          | transact_savings ↦
              update_account t.account_id (λ a. execute_transact_savings float a t.amount) store
          | write_check ↦
              update_account t.account_id (λ a. execute_write_check float a t.amount) store
          | send_payment ↦ send_payment_in float t store
        ])
          ≡ some (store', success)
        → count_key k store' ≡ count_key k store
    apply_as balance e = count_key-update_account k t.account_id _ store store' success e
    apply_as deposit_checking e = count_key-update_account k t.account_id _ store store' success e
    apply_as transact_savings e = count_key-update_account k t.account_id _ store store' success e
    apply_as write_check e = count_key-update_account k t.account_id _ store store' success e
    apply_as send_payment e = count_key-send_payment_in k float t store store' success e

count_sent-reply_to :
    (k : ℕ) (setup : ExecutorSetup) (digest : Digest) (header : TransactionHeader)
    (t : SmallBankTransaction) (success : Bool) (store : AccountStore)
    → count_sent k (reply_to setup digest header t success store).1 ≡ 0
unfolding reply_to count_sent
count_sent-reply_to k setup digest header t success store = elim (Bool-cases (is_sample header)) [
  | inl e ↦ elim (Option-cases (client_reply_address setup.committee header.id.region_id)) [
    | inl n ↦ rw (e, n) refl
    | inr (addr, a) ↦ rw (e, a) refl
  ]
  | inr e ↦ rw e refl
]

pub execute_single-Keeps :
    (k : ℕ) (setup : ExecutorSetup) (digest : Digest) (bytes : List ℕ) (header : TransactionHeader)
    (st st' : Execution) (success : Bool)
    → execute_single_local_transaction setup digest bytes header st ≡ some (st', success)
    → Keeps k st st'
unfolding execute_single_local_transaction
execute_single-Keeps k setup digest bytes header st st' success h =
    elim (Option-cases (parse_smallbank_payload bytes)) [
      | inl n ↦
          let counted : Execution = record st { executed_tx_count = st.executed_tx_count + 1 } in
          let same : counted ≡ st' = ground arith in
          subst (Keeps k st) same (Keeps-same k st counted refl refl refl refl)
      | inr (t, e) ↦ elim (Option-cases (apply_transaction setup.float t st.account_store)) [
        | inl n ↦ absurd (ground arith)
        | inr ((store, result), a) ↦
            let replies = (reply_to setup digest header t result store).1 in
            let last : Execution = record st {
              executed_tx_count = st.executed_tx_count + 1;
              account_store = store;
              sent = st.sent ++ replies;
            } in
            let same : last ≡ st' = ground arith in
            subst (Keeps k st) same (
              Keeps-same k st last
                (count_key-apply_transaction k setup.float t st.account_store store result a) refl
                refl
                (omega (
                  arith,
                  count_sent-append k st.sent replies,
                  count_sent-reply_to k setup digest header t result store,
                )))
      ]
    ]

send_account-Keeps :
    (k j dest : ℕ) (tx_id : TxId) (a : AccountState) (st : Execution)
    → lookup j st.account_store ≡ some a
    → Keeps k st (send_account tx_id j a dest st)
unfolding held count_sent
send_account-Keeps k j dest tx_id a st l h =
    let t : StateTransfer = record { tx_id = tx_id; src_account_id = j; src_account_state = a } in
    let out : count_sent k (st.sent ++ (send_state t dest ∷ []))
        ≡ count_sent k st.sent + count_sent k (send_state t dest ∷ []) =
      count_sent-append k st.sent (send_state t dest ∷ []) in
    let there = count_key-some j a st.account_store l in
    elim (Bool-cases (j == k)) [
      | inl e ↦
          let same : j ≡ k = (==_iff j k).0 e in
          let mine : 1 ≤ count_key k st.account_store =
            subst (λ i. 1 ≤ count_key i st.account_store) same there in
          let gone : count_key k (remove j st.account_store) ≡ 0 =
            count_key-remove k j st.account_store ∙ rw e refl in
          let one : count_sent k (send_state t dest ∷ []) ≡ 1 = rw e refl in
          (h.1, omega (arith, h.0, out, mine, gone, one), omega (arith, out))
      | inr e ↦
          let stays : count_key k (remove j st.account_store) ≡ count_key k st.account_store =
            count_key-remove k j st.account_store ∙ rw e refl in
          let zero : count_sent k (send_state t dest ∷ []) ≡ 0 = rw e refl in
          (h.1, omega (arith, out, stays, zero), omega (arith, out))
    ]

pub execute_migrate_out-Keeps :
    (k : ℕ) (header : TransactionHeader) (accounts : List ℕ) (dest : ℕ) (st st' : Execution)
    → execute_migrate_out header accounts dest st ≡ some st'
    → Keeps k st st'
unfolding execute_migrate_out
execute_migrate_out-Keeps k header [] dest st st' h =
    let same : st ≡ st' = ground arith in subst (Keeps k st) same (Keeps-refl k st)
execute_migrate_out-Keeps k header (j ∷ accounts) dest st st' h =
    elim (Option-cases (lookup j st.account_store)) [
      | inl n ↦ absurd (ground arith)
      | inr (a, l) ↦
          let next = send_account header.id j a dest st in
          Keeps-trans k st next st' (send_account-Keeps k j dest header.id a st l)
            (execute_migrate_out-Keeps k header accounts dest next st' (ground arith))
    ]

-- The queues do not matter.
abbrev pub with_queues : Queues → Execution → Execution
with_queues queues st = record st { pending_queues = queues }

pub with_queues-Keeps :
    (k : ℕ) (queues : Queues) (st : Execution) → Keeps k st (with_queues queues st)
with_queues-Keeps k queues st = Keeps-same k st (with_queues queues st) refl refl refl refl

run_head-Keeps :
    (k : ℕ) (setup : ExecutorSetup) (tx_id : TxId) (required : List ℕ)
    (locality : TransactionLocality) (worklist worklist' : List ℕ) (st st' : Execution)
    → run_head setup tx_id required locality worklist st ≡ some (st', worklist')
    → Keeps k st st'
unfolding run_head
run_head-Keeps k setup tx_id required (migrate_in accounts) worklist worklist' st st' h =
    absurd (ground arith)
run_head-Keeps k setup tx_id required (others target) worklist worklist' st st' h =
    absurd (ground arith)
run_head-Keeps k setup tx_id required (migrate_out accounts other dest) worklist worklist' st st'
      h =
    elim (Option-cases (pop_transaction_from_accounts st.pending_queues accounts tx_id)) [
      | inl n ↦ absurd (ground arith)
      | inr ((queues, tx), p) ↦
          let next = with_queues queues st in
          elim (Option-cases (execute_migrate_out tx.tx_header accounts dest next)) [
            | inl n ↦ absurd (ground arith)
            | inr (t, e) ↦
                let same : t ≡ st' = ground arith in
                subst (Keeps k st) same (
                  Keeps-trans k st next t (with_queues-Keeps k queues st)
                    (execute_migrate_out-Keeps k tx.tx_header accounts dest next t e))
          ]
    ]
run_head-Keeps k setup tx_id required local worklist worklist' st st' h =
    elim (Option-cases (pop_transaction_from_accounts st.pending_queues required tx_id)) [
      | inl n ↦ absurd (ground arith)
      | inr ((queues, tx), p) ↦
          let next = with_queues queues st in
          elim (Option-cases (
            execute_single_local_transaction setup tx.batch_digest tx.tx_bytes tx.tx_header next)) [
              | inl n ↦ absurd (ground arith)
              | inr ((t, success), e) ↦
                  let same : t ≡ st' = ground arith in
                  subst (Keeps k st) same (
                    Keeps-trans k st next t (with_queues-Keeps k queues st) (
                      execute_single-Keeps k setup tx.batch_digest tx.tx_bytes tx.tx_header next t
                        success e))
            ]
    ]

drain-Keeps :
    (k fuel : ℕ) (setup : ExecutorSetup) (current : Option ℕ) (worklist : List ℕ)
    (st st' : Execution)
    → drain fuel setup current worklist st ≡ drained st'
    → Keeps k st st'
unfolding drain
drain-Keeps k zero setup current worklist st st' h = absurd (cc)
drain-Keeps k (suc fuel) setup none [] st st' h =
    let same : st ≡ st' = cc in subst (Keeps k st) same (Keeps-refl k st)
drain-Keeps k (suc fuel) setup none (j ∷ worklist) st st' h =
    drain-Keeps k fuel setup (some j) worklist st st' h
drain-Keeps k (suc fuel) setup (some j) worklist st st' h =
    elim (Option-cases (get_executable_queue_head st.account_store st.pending_queues j)) [
      | inl n ↦ absurd (ground arith)
      | inr (none, g) ↦
          let queues = remove_if_empty j st.pending_queues in
          Keeps-trans k st (with_queues queues st) st' (with_queues-Keeps k queues st)
            (drain-Keeps k fuel setup none worklist (with_queues queues st) st' (ground arith))
      | inr (some head, g) ↦
          elim (Option-cases
            (run_head setup head.tx_id head.required_accounts head.locality worklist st)) [
              | inl n ↦ absurd (ground arith)
              | inr ((t, worklist'), r) ↦
                  Keeps-trans k st t st'
                    (run_head-Keeps k setup head.tx_id head.required_accounts head.locality worklist
                      worklist' st t r)
                    (drain-Keeps k fuel setup (some j) worklist' t st' (ground arith))
            ]
    ]

pub drain_pending_queues-Keeps :
    (k : ℕ) (setup : ExecutorSetup) (unlocked : List ℕ) (st st' : Execution)
    → drain_pending_queues setup unlocked st ≡ some st'
    → Keeps k st st'
unfolding drain_pending_queues
drain_pending_queues-Keeps k setup unlocked st st' h =
    let worklist = extend_worklist [] unlocked in
    let fuel = drain_fuel worklist st.pending_queues in
    drain_result (drain fuel setup none worklist st)
      (λ t e. drain-Keeps k fuel setup none worklist st t e) h
  where
    drain_result :
        (d : Drained)
        → ((t : Execution) → d ≡ drained t → Keeps k st t)
        → (elim d [ drained t ↦ some t | panicked ↦ none | exhausted ↦ none ]) ≡ some st'
        → Keeps k st st'
    drain_result (drained t) keeps e =
        let same : t ≡ st' = ground arith in subst (Keeps k st) same (keeps t refl)
    drain_result panicked keeps e = absurd (cc)
    drain_result exhausted keeps e = absurd (cc)
