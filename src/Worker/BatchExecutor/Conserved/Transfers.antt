-- ===== src/Worker/BatchExecutor/Conserved/Transfers.antt =====
-- worker/src/batch_executor.rs: the accounts that arrive are kept.
use dag_bft_sigmod.Base.{
  ℕ, ◌+◌, ◌≤◌, ◌&&◌, none, some, List, [], ◌∷◌, ◌++◌, ◌≡◌, inl, inr, refl, subst, arith, ◌==◌,
  ==_iff, nat_eq, Bool-cases, Option-cases, length, map,
}
use dag_bft_sigmod.Base.Maps.{Map, lookup, insert, remove, get_or, keys}
use dag_bft_sigmod.Worker.Account.{AccountStore}
use dag_bft_sigmod.Worker.Transaction.{TxId}
use dag_bft_sigmod.Worker.BatchExecutor.{Execution, ExecutorSetup, StateTransfer, tx_id_eq}
use dag_bft_sigmod.Worker.BatchExecutor.Queues.{pop_transaction_from_accounts}
use dag_bft_sigmod.Worker.BatchExecutor.Execute.{
  execute_single_local_transaction, drain_pending_queues,
}
use dag_bft_sigmod.Worker.BatchExecutor.Transfers.{
  extend_transfers, are_all_heads, are_all_in_store, arrive, awaiting_head, take_transfers,
  process_transfer, process_transfers, process_incoming_transfers,
}
use dag_bft_sigmod.Worker.BatchExecutor.Conserved.{
  count_key, count_transfers, count_waiting, held, Unique, Keeps, Keeps-refl, Keeps-trans,
  Keeps-same,
}
use dag_bft_sigmod.Worker.BatchExecutor.Conserved.Accounts.{
  count_key-some, count_key-update, count_key-insert, count_transfers-append, count_waiting-insert,
  count_waiting-remove, Unique-insert, Unique-remove,
}
use dag_bft_sigmod.Worker.BatchExecutor.Conserved.Execute.{
  execute_single-Keeps, drain_pending_queues-Keeps,
}

count_waiting-extend_transfers :
    (k : ℕ) (arrived transfers : Map TxId (List StateTransfer))
    → count_waiting k (extend_transfers arrived transfers)
      ≡ count_waiting k arrived + count_waiting k transfers
unfolding extend_transfers count_waiting
count_waiting-extend_transfers k [] transfers = omega arith
count_waiting-extend_transfers k ((tx_id, new) ∷ arrived) transfers =
    let before = get_or [] (lookup tx_id transfers) in
    omega (
      arith,
      count_waiting-extend_transfers k arrived (insert tx_id (before ++ new) transfers),
      count_waiting-insert k tx_id (before ++ new) transfers,
      count_transfers-append k before new,
    )

Unique-extend_transfers :
    (arrived transfers : Map TxId (List StateTransfer))
    → Unique transfers
    → Unique (extend_transfers arrived transfers)
unfolding extend_transfers
Unique-extend_transfers [] transfers u = u
Unique-extend_transfers ((tx_id, new) ∷ arrived) transfers u =
    let more = get_or [] (lookup tx_id transfers) ++ new in
    Unique-extend_transfers arrived (insert tx_id more transfers)
      (Unique-insert tx_id more transfers u)

-- An account that is in the store or arrives, once at most, is in the store afterwards.
count_key-arrive :
    (k : ℕ) (transfers : List StateTransfer) (store : AccountStore)
    → count_key k store + count_transfers k transfers ≤ 1
    → count_key k (arrive transfers store) ≡ count_key k store + count_transfers k transfers
unfolding arrive count_transfers
count_key-arrive k [] store h = omega arith
count_key-arrive k (t ∷ transfers) store h =
    let j = t.src_account_id in
    let a = t.src_account_state in
    let rest = count_key-arrive k transfers (insert j a store) in
    elim (Option-cases (lookup j store)) [
      | inr (b, l) ↦
          let same : count_key k (insert j a store) ≡ count_key k store =
            count_key-update k j a b store l in
          let there = count_key-some j b store l in
          elim (Bool-cases (j == k)) [
            | inl e ↦
                let mine : 1 ≤ count_key k store =
                  subst (λ i. 1 ≤ count_key i store) ((==_iff j k).0 e) there in
                absurd (ground (arith, mine))
            | inr e ↦
                rw e (let h' = rw e at h in omega (arith, same, rest (omega (arith, same, h'))))
          ]
      | inl n ↦
          let more = count_key-insert k j a store n in
          elim (Bool-cases (j == k)) [
            | inl e ↦ rw e (
                let more' = rw e at more in
                let h' = rw e at h in omega (arith, more', rest (omega (arith, more', h'))))
            | inr e ↦ rw e (
                let more' = rw e at more in
                let h' = rw e at h in omega (arith, more', rest (omega (arith, more', h'))))
          ]
    ]

-- The state with the transfers in the store.
abbrev with_transfers : TxId → List StateTransfer → Execution → Execution
with_transfers tx_id transfers st = record st {
  drained_incoming_transfers = remove tx_id st.drained_incoming_transfers;
  account_store = arrive transfers st.account_store;
}

with_transfers-Keeps :
    (k : ℕ) (tx_id : TxId) (transfers : List StateTransfer) (st : Execution)
    → lookup tx_id st.drained_incoming_transfers ≡ some transfers
    → Keeps k st (with_transfers tx_id transfers st)
unfolding held
with_transfers-Keeps k tx_id transfers st l h =
    let taken = count_waiting-remove k tx_id transfers st.drained_incoming_transfers h.1 l in
    let stored = count_key-arrive k transfers st.account_store (omega (arith, h.0, taken)) in
    (
      Unique-remove tx_id st.drained_incoming_transfers h.1,
      omega (arith, taken, stored),
      omega arith,
    )

take_transfers-Keeps :
    (k : ℕ) (setup : ExecutorSetup) (tx_id : TxId) (transfers : List StateTransfer)
    (required : List ℕ) (st st' : Execution) (unlocked unlocked' : List ℕ)
    → lookup tx_id st.drained_incoming_transfers ≡ some transfers
    → take_transfers setup tx_id transfers required st unlocked ≡ some (st', unlocked')
    → Keeps k st st'
unfolding take_transfers
take_transfers-Keeps k setup tx_id transfers required st st' unlocked unlocked' l h =
    elim (Option-cases (pop_transaction_from_accounts st.pending_queues required tx_id)) [
      | inl n ↦ absurd (ground arith)
      | inr ((queues, tx), p) ↦
          let next = record (with_transfers tx_id transfers st) { pending_queues = queues } in
          elim (Option-cases (
            execute_single_local_transaction setup tx.batch_digest tx.tx_bytes tx.tx_header next)) [
              | inl n ↦ absurd (ground arith)
              | inr ((t, success), e) ↦
                  let same : t ≡ st' = ground arith in
                  subst (Keeps k st) same (
                    Keeps-trans k st next t
                      (Keeps-trans k st (with_transfers tx_id transfers st) next
                        (with_transfers-Keeps k tx_id transfers st l)
                        (Keeps-same k (with_transfers tx_id transfers st) next refl refl refl refl))
                      (execute_single-Keeps k setup tx.batch_digest tx.tx_bytes tx.tx_header next t
                        success e))
            ]
    ]

process_transfer-Keeps :
    (k : ℕ) (setup : ExecutorSetup) (tx_id : TxId) (st st' : Execution)
    (unlocked unlocked' : List ℕ)
    → process_transfer setup tx_id st unlocked ≡ some (st', unlocked')
    → Keeps k st st'
unfolding process_transfer
process_transfer-Keeps k setup tx_id st st' unlocked unlocked' h =
    elim (Option-cases (lookup tx_id st.drained_incoming_transfers)) [
      | inl n ↦ absurd (ground arith)
      | inr (transfers, l) ↦ elim (Option-cases (awaiting_head st.pending_queues tx_id transfers)) [
        | inl n ↦ absurd (ground arith)
        | inr (none, a) ↦ unchanged (ground arith)
        | inr (some (migrating, required), a) ↦
            elim (Bool-cases (length transfers == length migrating)) [
              | inr e ↦ unchanged (ground arith)
              | inl e ↦ elim (Option-cases (are_all_heads st.pending_queues tx_id required)) [
                | inl n ↦ absurd (ground arith)
                | inr (heads, r) ↦
                    elim (Bool-cases (
                      heads
                      && are_all_in_store (map (λ x. x.0) migrating) st.account_store required)) [
                        | inr b ↦ unchanged (ground arith)
                        | inl b ↦
                            let taken : take_transfers setup tx_id transfers required st unlocked
                                ≡ some (st', unlocked') =
                              ground arith in
                            take_transfers-Keeps k setup tx_id transfers required st st' unlocked
                              unlocked' l taken
                      ]
              ]
            ]
      ]
    ]
  where
    unchanged : st ≡ st' → Keeps k st st'
    unchanged same = subst (Keeps k st) same (Keeps-refl k st)

process_transfers-Keeps :
    (k : ℕ) (setup : ExecutorSetup) (tx_ids : List TxId) (st st' : Execution)
    (unlocked unlocked' : List ℕ)
    → process_transfers setup tx_ids st unlocked ≡ some (st', unlocked')
    → Keeps k st st'
unfolding process_transfers
process_transfers-Keeps k setup [] st st' unlocked unlocked' h =
    let same : st ≡ st' = ground arith in subst (Keeps k st) same (Keeps-refl k st)
process_transfers-Keeps k setup (tx_id ∷ tx_ids) st st' unlocked unlocked' h =
    elim (Option-cases (process_transfer setup tx_id st unlocked)) [
      | inl n ↦ absurd (ground arith)
      | inr ((t, more), e) ↦
          Keeps-trans k st t st' (process_transfer-Keeps k setup tx_id st t unlocked more e)
            (process_transfers-Keeps k setup tx_ids t st' more unlocked' (ground arith))
    ]

abbrev collected : Execution → Execution
collected st = record st {
  incoming_transfers = [];
  drained_incoming_transfers = extend_transfers st.incoming_transfers st.drained_incoming_transfers;
}

collected-Keeps : (k : ℕ) (st : Execution) → Keeps k st (collected st)
unfolding held count_waiting
collected-Keeps k st h = (
  Unique-extend_transfers st.incoming_transfers st.drained_incoming_transfers h.1,
  omega
      (arith, count_waiting-extend_transfers k st.incoming_transfers st.drained_incoming_transfers),
  omega arith,
)

pub process_incoming_transfers-Keeps :
    (k : ℕ) (setup : ExecutorSetup) (st st' : Execution)
    → process_incoming_transfers setup st ≡ some st'
    → Keeps k st st'
unfolding process_incoming_transfers
process_incoming_transfers-Keeps k setup st st' h =
    let next = collected st in
    elim (Option-cases (process_transfers setup (keys next.drained_incoming_transfers) next [])) [
      | inl n ↦ absurd (ground arith)
      | inr ((t, []), e) ↦
          let same : t ≡ st' = ground arith in
          subst (Keeps k st) same (
            Keeps-trans k st next t (collected-Keeps k st) (
              process_transfers-Keeps k setup (keys next.drained_incoming_transfers) next t [] []
                e))
      | inr ((t, x ∷ xs), e) ↦
          let last : drain_pending_queues setup (x ∷ xs) t ≡ some st' = ground arith in
          Keeps-trans k st t st'
            (Keeps-trans k st next t (collected-Keeps k st) (
              process_transfers-Keeps k setup (keys next.drained_incoming_transfers) next t []
                (x ∷ xs) e))
            (drain_pending_queues-Keeps k setup (x ∷ xs) t st' last)
    ]
