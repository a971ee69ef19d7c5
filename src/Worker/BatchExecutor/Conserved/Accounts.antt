-- ===== src/Worker/BatchExecutor/Conserved/Accounts.antt =====
-- worker/src/batch_executor.rs: the counts under insertions and removals.
use dag_bft_sigmod.Base.{
  ℕ, suc, ◌+◌, ◌≤◌, false, none, some, List, [], ◌∷◌, ◌++◌, ◌≡◌, inl, inr, refl, sym, ap, subst,
  ◌∙◌, arith, if◌then◌else◌, ◌==◌, ==_iff, nat_eq, Bool-cases,
}
use dag_bft_sigmod.Base.Maps.{Map, lookup, insert, remove, get_or, lookup-insert, lookup-remove}
use dag_bft_sigmod.Worker.Transaction.{TxId}
use dag_bft_sigmod.Worker.BatchExecutor.{
  StateTransfer, ExecutorOutput, client_reply, send_state, feedback, tx_id_eq, tx_id_beq,
  tx_id_beq_iff,
}
use dag_bft_sigmod.Worker.BatchExecutor.Conserved.{
  count_key, count_transfers, count_waiting, count_sent, Unique,
}

module _ {V : Type 0} where
  pub count_key-none : (k : ℕ) (m : Map ℕ V) → lookup k m ≡ none → count_key k m ≡ 0
  unfolding count_key lookup
  count_key-none k [] h = refl
  count_key-none k ((j, v) ∷ m) h = elim (Bool-cases (j == k)) [
    | inl e ↦ absurd (ground arith)
    | inr e ↦ rw e (count_key-none k m (ground arith))
  ]

  pub count_key-some : (k : ℕ) (v : V) (m : Map ℕ V) → lookup k m ≡ some v → 1 ≤ count_key k m
  unfolding count_key lookup
  count_key-some k v [] h = absurd (cc)
  count_key-some k v ((j, w) ∷ m) h = elim (Bool-cases (j == k)) [
    | inl e ↦ rw e (omega arith)
    | inr e ↦ rw e (count_key-some k v m (ground arith))
  ]

  pub count_key-update :
      (k j : ℕ) (v w : V) (m : Map ℕ V)
      → lookup j m ≡ some w
      → count_key k (insert j v m) ≡ count_key k m
  unfolding count_key lookup insert
  count_key-update k j v w [] h = absurd (cc)
  count_key-update k j v w ((i, x) ∷ m) h = elim (Bool-cases (i == j)) [
    | inl e ↦ ground (arith, ==_iff i j)
    | inr e ↦ let rest = count_key-update k j v w m (ground arith) in ground (arith, rest)
  ]

  pub count_key-insert :
      (k j : ℕ) (v : V) (m : Map ℕ V)
      → lookup j m ≡ none
      → count_key k (insert j v m) ≡ (if j == k then suc (count_key k m) else count_key k m)
  unfolding count_key lookup insert
  count_key-insert k j v [] h = refl
  count_key-insert k j v ((i, x) ∷ m) h = elim (Bool-cases (i == j)) [
    | inl e ↦ absurd (ground arith)
    | inr e ↦ let rest = count_key-insert k j v m (ground arith) in ground (arith, rest)
  ]

  pub count_key-remove :
      (k j : ℕ) (m : Map ℕ V) → count_key k (remove j m) ≡ (if j == k then 0 else count_key k m)
  unfolding count_key remove
  count_key-remove k j [] = ground arith
  count_key-remove k j ((i, x) ∷ m) =
      ground (arith, ==_iff i j, ==_iff j k, ==_iff i k, count_key-remove k j m)

pub count_sent-append :
    (k : ℕ) (xs ys : List ExecutorOutput)
    → count_sent k (xs ++ ys) ≡ count_sent k xs + count_sent k ys
unfolding count_sent
count_sent-append k [] ys = omega arith
count_sent-append k (client_reply r ∷ xs) ys = count_sent-append k xs ys
count_sent-append k (feedback e last ∷ xs) ys = count_sent-append k xs ys
count_sent-append k (send_state t dest ∷ xs) ys = ground (arith, count_sent-append k xs ys)

pub count_transfers-append :
    (k : ℕ) (xs ys : List StateTransfer)
    → count_transfers k (xs ++ ys) ≡ count_transfers k xs + count_transfers k ys
unfolding count_transfers
count_transfers-append k [] ys = omega arith
count_transfers-append k (t ∷ xs) ys = ground (arith, count_transfers-append k xs ys)

pub count_waiting-insert :
    (k : ℕ) (tx_id : TxId) (transfers : List StateTransfer) (m : Map TxId (List StateTransfer))
    → count_waiting k (insert tx_id transfers m) + count_transfers k (get_or [] (lookup tx_id m))
      ≡ count_waiting k m + count_transfers k transfers
unfolding count_waiting lookup insert
count_waiting-insert k tx_id transfers [] = omega arith
count_waiting-insert k tx_id transfers ((j, x) ∷ m) = elim (Bool-cases (tx_id_beq j tx_id)) [
  | inl e ↦ rw e (omega arith)
  | inr e ↦ rw e (omega (arith, count_waiting-insert k tx_id transfers m))
]

pub count_waiting-absent :
    (k : ℕ) (tx_id : TxId) (m : Map TxId (List StateTransfer))
    → lookup tx_id m ≡ none
    → count_waiting k (remove tx_id m) ≡ count_waiting k m
unfolding count_waiting lookup remove
count_waiting-absent k tx_id [] h = refl
count_waiting-absent k tx_id ((j, x) ∷ m) h = elim (Bool-cases (tx_id_beq j tx_id)) [
  | inl e ↦ absurd (ground arith)
  | inr e ↦ rw e (omega (arith, count_waiting-absent k tx_id m (ground arith)))
]

pub count_waiting-remove :
    (k : ℕ) (tx_id : TxId) (transfers : List StateTransfer) (m : Map TxId (List StateTransfer))
    → Unique m
    → lookup tx_id m ≡ some transfers
    → count_waiting k (remove tx_id m) + count_transfers k transfers ≡ count_waiting k m
unfolding count_waiting lookup remove
count_waiting-remove k tx_id transfers [] u h = absurd (cc)
count_waiting-remove k tx_id transfers ((j, x) ∷ m) u h = elim (Bool-cases (tx_id_beq j tx_id)) [
  | inl e ↦
      let same : j ≡ tx_id = (tx_id_beq_iff j tx_id).0 e in
      let absent : lookup tx_id m ≡ none = subst (λ i. lookup i m ≡ none) same u.0 in
      let it : x ≡ transfers = ground arith in
      rw e (omega (arith, count_waiting-absent k tx_id m absent, ap (count_transfers k) it))
  | inr e ↦ rw e (omega (arith, count_waiting-remove k tx_id transfers m u.1 (ground arith)))
]

differ : (a b : TxId) → tx_id_beq b a ≡ false → tx_id_beq a b ≡ false
differ a b h = elim (Bool-cases (tx_id_beq a b)) [
  | inl e ↦ absurd (ground (arith, (tx_id_beq_iff b a).1 (sym ((tx_id_beq_iff a b).0 e))))
  | inr e ↦ e
]

pub Unique-insert :
    (tx_id : TxId) (transfers : List StateTransfer) (m : Map TxId (List StateTransfer))
    → Unique m
    → Unique (insert tx_id transfers m)
unfolding lookup insert
Unique-insert tx_id transfers [] u = (refl, tt)
Unique-insert tx_id transfers ((j, x) ∷ m) u = elim (Bool-cases (tx_id_beq j tx_id)) [
  | inl e ↦ rw e (subst (λ i. lookup i m ≡ none) ((tx_id_beq_iff j tx_id).0 e) u.0, u.1)
  | inr e ↦ rw e (
    lookup-insert tx_id j transfers m ∙ rw (differ tx_id j e) u.0,
    Unique-insert tx_id transfers m u.1,
  )
]

pub Unique-remove :
    (tx_id : TxId) (m : Map TxId (List StateTransfer)) → Unique m → Unique (remove tx_id m)
unfolding lookup remove
Unique-remove tx_id [] u = tt
Unique-remove tx_id ((j, x) ∷ m) u = elim (Bool-cases (tx_id_beq j tx_id)) [
  | inl e ↦ rw e (Unique-remove tx_id m u.1)
  | inr e ↦ rw e (lookup-remove tx_id j m ∙ rw (differ tx_id j e) u.0, Unique-remove tx_id m u.1)
]
