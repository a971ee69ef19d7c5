-- ===== src/Worker/Account.antt =====
-- worker/src/workload.rs: the balances of a SmallBank account. An `f64` is the number that its eight
-- bytes spell; floating-point arithmetic is not part of these files: a `Float` gives the two uses.
use dag_bft_sigmod.Base.{ℕ, Bool, true, false, if◌then◌else◌}
use dag_bft_sigmod.Base.Maps.{Map}
use dag_bft_sigmod.Base.Int.{ℤ, pos, ◌+ℤ◌, ◌-ℤ◌, ltb_ℤ, saturate_i64, wrap_i64}

-- `amount as i64`, and `(amount - 1.0) as i64`.
pub record Float : Type 0 where
  pub as_i64 : ℕ → ℤ
  pub less_one_as_i64 : ℕ → ℤ

pub record AccountState : Type 0 where
  pub checking_balance : ℤ
  pub savings_balance : ℤ

abbrev pub AccountStore : Type 0
AccountStore = Map ℕ AccountState

unfoldable pub total_balance : AccountState → ℤ
total_balance a = saturate_i64 (a.checking_balance +ℤ a.savings_balance)

unfoldable pub execute_balance : AccountState → ℤ
unfolding total_balance
execute_balance a = total_balance a

module _ (float : Float) where
  unfoldable pub execute_deposit_checking : AccountState → ℕ → AccountState × Bool
  execute_deposit_checking a amount = (
    record a { checking_balance = saturate_i64 (a.checking_balance +ℤ float.as_i64 amount) },
    true,
  )

  unfoldable pub execute_transact_savings : AccountState → ℕ → AccountState × Bool
  execute_transact_savings a amount =
      let new_balance = wrap_i64 (a.savings_balance -ℤ float.as_i64 amount) in
      if ltb_ℤ new_balance (pos 0)
      then (a, false)
      else (record a { savings_balance = new_balance }, true)

  unfoldable pub execute_write_check : AccountState → ℕ → AccountState × Bool
  unfolding total_balance
  execute_write_check a amount =
      let deduction =
        if ltb_ℤ (total_balance a) (float.as_i64 amount)
        then float.less_one_as_i64 amount
        else float.as_i64 amount in
      (record a { checking_balance = saturate_i64 (a.checking_balance -ℤ deduction) }, true)

  unfoldable pub execute_send_payment_debit : AccountState → ℕ → AccountState × Bool
  execute_send_payment_debit a amount =
      let new_balance = wrap_i64 (a.checking_balance -ℤ float.as_i64 amount) in
      if ltb_ℤ new_balance (pos 0)
      then (a, false)
      else (record a { checking_balance = new_balance }, true)

  unfoldable pub execute_send_payment_credit : AccountState → ℕ → AccountState
  execute_send_payment_credit a amount = record a {
    checking_balance = saturate_i64 (a.checking_balance +ℤ float.as_i64 amount);
  }
