-- ===== src/Worker/BatchExecutor/Execute/Payment.antt =====
-- worker/src/batch_executor.rs and worker/src/workload.rs: the accounts after a payment.
use dag_bft_sigmod.Base.{
  ℕ, Bool, true, false, not, Option, some, ◌≡◌, ◌≢◌, inl, inr, refl, ap, ◌∙◌, arith, if◌then◌else◌,
  ◌==◌, ==_iff, nat_eq, Bool-cases,
}
use dag_bft_sigmod.Base.Maps.{lookup, insert, lookup-insert}
use dag_bft_sigmod.Base.Int.{
  ℤ, pos, ◌+ℤ◌, ◌-ℤ◌, FitsI64, ltb_ℤ, wrap_i64-FitsI64, saturate_i64-FitsI64, +ℤ_parts, -ℤ_parts,
  eq_of_parts,
}
use dag_bft_sigmod.Worker.Account.{
  Float, AccountState, AccountStore, execute_send_payment_debit, execute_send_payment_credit,
}
use dag_bft_sigmod.Worker.Workload.{SmallBankTransaction}
use dag_bft_sigmod.Worker.BatchExecutor.Execute.{update_account, send_payment_in}

abbrev pub debited : Float → ℕ → AccountState → AccountState
debited float amount a = record a { checking_balance = a.checking_balance -ℤ float.as_i64 amount }

abbrev pub credited : Float → ℕ → AccountState → AccountState
credited float amount a = record a { checking_balance = a.checking_balance +ℤ float.as_i64 amount }

abbrev pub is_short : Float → ℕ → AccountState → Bool
is_short float amount a = ltb_ℤ (a.checking_balance -ℤ float.as_i64 amount) (pos 0)

debit_lem :
    (float : Float) (a : AccountState) (amount : ℕ)
    → FitsI64 (a.checking_balance -ℤ float.as_i64 amount)
    → execute_send_payment_debit float a amount
      ≡ (if is_short float amount a then (a, false) else (debited float amount a, true))
unfolding execute_send_payment_debit
debit_lem float a amount fits =
    rw (wrap_i64-FitsI64 (a.checking_balance -ℤ float.as_i64 amount) fits) refl

credit_lem :
    (float : Float) (b : AccountState) (amount : ℕ)
    → FitsI64 (b.checking_balance +ℤ float.as_i64 amount)
    → execute_send_payment_credit float b amount ≡ credited float amount b
unfolding execute_send_payment_credit
credit_lem float b amount fits =
    rw (saturate_i64-FitsI64 (b.checking_balance +ℤ float.as_i64 amount) fits) refl

conserved : (x y m : ℤ) → (x -ℤ m) +ℤ (y +ℤ m) ≡ x +ℤ y
conserved x y m =
    eq_of_parts ((x -ℤ m) +ℤ (y +ℤ m)) (x +ℤ y)
      (omega (arith, -ℤ_parts x m, +ℤ_parts y m, +ℤ_parts (x -ℤ m) (y +ℤ m), +ℤ_parts x y))

lookup-update :
    (k : ℕ) (f : AccountState → AccountState × Bool) (a : AccountState) (store : AccountStore)
    → lookup k store ≡ some a
    → update_account k f store ≡ some (insert k (f a).0 store, (f a).1)
unfolding update_account
lookup-update k f a store l = rw l refl

-- An operation with a known result on an account of the store.
update_account_lem :
    (k : ℕ) (f : AccountState → AccountState × Bool) (a a' : AccountState) (success : Bool)
    (store : AccountStore)
    → lookup k store ≡ some a
    → f a ≡ (a', success)
    → update_account k f store ≡ some (insert k a' store, success)
update_account_lem k f a a' success store l e =
    lookup-update k f a store l ∙ ap (λ r. some (insert k r.0 store, r.1)) e

send_payment_short :
    (float : Float) (t : SmallBankTransaction) (a b : AccountState) (store : AccountStore)
    → lookup t.account_id store ≡ some a
    → lookup t.dest_account_id store ≡ some b
    → FitsI64 (a.checking_balance -ℤ float.as_i64 t.amount)
    → is_short float t.amount a ≡ true
    → send_payment_in float t store ≡ some (insert t.account_id a store, false)
unfolding send_payment_in
send_payment_short float t a b store src dest debit short =
    let result : execute_send_payment_debit float a t.amount ≡ (a, false) =
      debit_lem float a t.amount debit ∙ rw short refl in
    let first =
      update_account_lem t.account_id (λ x. execute_send_payment_debit float x t.amount) a a false
        store src result in
    rw (dest, first) refl

send_payment_enough :
    (float : Float) (t : SmallBankTransaction) (a b : AccountState) (store : AccountStore)
    → t.account_id ≢ t.dest_account_id
    → lookup t.account_id store ≡ some a
    → lookup t.dest_account_id store ≡ some b
    → FitsI64 (a.checking_balance -ℤ float.as_i64 t.amount)
    → FitsI64 (b.checking_balance +ℤ float.as_i64 t.amount)
    → is_short float t.amount a ≡ false
    → send_payment_in float t store
      ≡ some (
        insert t.dest_account_id
            (credited float t.amount b)
            (insert t.account_id (debited float t.amount a) store),
        true,
      )
unfolding send_payment_in
send_payment_enough float t a b store differ src dest debit credit enough =
    let result : execute_send_payment_debit float a t.amount ≡ (debited float t.amount a, true) =
      debit_lem float a t.amount debit ∙ rw enough refl in
    let first =
      update_account_lem t.account_id (λ x. execute_send_payment_debit float x t.amount) a
        (debited float t.amount a) true store src result in
    let there : lookup t.dest_account_id (insert t.account_id (debited float t.amount a) store)
        ≡ some b =
      lookup-insert t.account_id t.dest_account_id (debited float t.amount a) store
      ∙ ground (arith, ==_iff t.account_id t.dest_account_id) in
    let second =
      update_account_lem t.dest_account_id
        (λ x. (execute_send_payment_credit float x t.amount, true)) b (credited float t.amount b)
        true (insert t.account_id (debited float t.amount a) store) there
        (ap (λ r. (r, true)) (credit_lem float b t.amount credit)) in
    rw (dest, first, second) refl

-- The accounts after a payment.
abbrev pub paid :
    Float
    → SmallBankTransaction
    → AccountState
    → AccountState
    → AccountStore
    → ℕ
    → Option AccountState
paid float t a b store k =
    if is_short float t.amount a
    then lookup k store
    else if t.dest_account_id == k
    then some (credited float t.amount b)
    else if t.account_id == k
    then some (debited float t.amount a)
    else lookup k store

-- A payment between different accounts of the store, with sums that fit in an `i64`: it does not panic;
-- it succeeds exactly if the source keeps a balance that is not negative; then the amount leaves the
-- source and reaches the destination, and the sum of the two balances stays; if it fails, and for all
-- other accounts, nothing changes.
pub send_payment_lem :
    (float : Float) (t : SmallBankTransaction) (a b : AccountState) (store : AccountStore)
    → t.account_id ≢ t.dest_account_id
    → lookup t.account_id store ≡ some a
    → lookup t.dest_account_id store ≡ some b
    → FitsI64 (a.checking_balance -ℤ float.as_i64 t.amount)
    → FitsI64 (b.checking_balance +ℤ float.as_i64 t.amount)
    → ((store' : AccountStore) × (send_payment_in float t store
          ≡ some (store', not (is_short float t.amount a)))
        × ((k : ℕ) → lookup k store' ≡ paid float t a b store k))
      × ((debited float t.amount a).checking_balance +ℤ (credited float t.amount b).checking_balance
          ≡ a.checking_balance +ℤ b.checking_balance)
send_payment_lem float t a b store differ src dest debit credit = (
  elim (Bool-cases (is_short float t.amount a)) [
    | inl short ↦ (
      insert t.account_id a store,
      send_payment_short float t a b store src dest debit short ∙ rw short refl,
      λ k. lookup-insert t.account_id k a store ∙ ground (arith, ==_iff t.account_id k),
    )
    | inr enough ↦ (
      insert t.dest_account_id (credited float t.amount b)
          (insert t.account_id (debited float t.amount a) store),
      send_payment_enough float t a b store differ src dest debit credit enough ∙ rw enough refl,
      λ k.
          lookup-insert t.dest_account_id k (credited float t.amount b)
            (insert t.account_id (debited float t.amount a) store)
          ∙ rw (lookup-insert t.account_id k (debited float t.amount a) store) (rw enough refl),
    )
  ],
  conserved a.checking_balance b.checking_balance (float.as_i64 t.amount),
)
