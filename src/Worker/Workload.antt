-- ===== src/Worker/Workload.antt =====
-- worker/src/workload.rs: the SmallBank payload of a transaction. An `f64` is the number that its
-- eight bytes spell.
use dag_bft_sigmod.Base.{
  ℕ, ◌<◌, ◌≡◌, refl, Option, none, some, List, ◌∷◌, ◌++◌, length, if◌then◌else◌, ltb, ◌==◌,
  get_elem?,
}
use dag_bft_sigmod.Primary.Messages.{be_bytes}
use dag_bft_sigmod.Worker.Bytes.{take, drop, slice, from_be_bytes, pow256, from_be_bytes-be_bytes}

pub data SmallBankTxType : Type 0 where
  balance : SmallBankTxType
  deposit_checking : SmallBankTxType
  transact_savings : SmallBankTxType
  write_check : SmallBankTxType
  send_payment : SmallBankTxType

unfoldable pub from_u8 : ℕ → Option SmallBankTxType
from_u8 value =
    if value == 0
    then some balance
    else if value == 1
    then some deposit_checking
    else if value == 2
    then some transact_savings
    else if value == 3
    then some write_check
    else if value == 4
    then some send_payment
    else none

unfoldable pub to_u8 : SmallBankTxType → ℕ
to_u8 balance = 0
to_u8 deposit_checking = 1
to_u8 transact_savings = 2
to_u8 write_check = 3
to_u8 send_payment = 4

pub record SmallBankTransaction : Type 0 where
  pub tx_type : SmallBankTxType
  pub account_id : ℕ
  pub dest_account_id : ℕ
  pub amount : ℕ

unfoldable pub from_bytes : List ℕ → Option SmallBankTransaction
unfolding take drop get_elem? from_u8
from_bytes bytes = if ltb (length bytes) 25 then none else elim (get_elem? bytes 16) [
  | none ↦ none
  | some b ↦ elim (from_u8 b) [
    | none ↦ none
    | some tx_type ↦ some (record {
      tx_type = tx_type;
      account_id = from_be_bytes (slice 0 8 bytes);
      dest_account_id = from_be_bytes (slice 8 16 bytes);
      amount = from_be_bytes (slice 17 25 bytes);
    })
  ]
]

unfoldable pub to_bytes : SmallBankTransaction → List ℕ
unfolding be_bytes to_u8
to_bytes t =
    be_bytes 8 t.account_id
    ++ (be_bytes 8 t.dest_account_id ++ (to_u8 t.tx_type ∷ be_bytes 8 t.amount))

from_u8-to_u8 : (t : SmallBankTxType) → from_u8 (to_u8 t) ≡ some t
unfolding from_u8 to_u8
from_u8-to_u8 balance = refl
from_u8-to_u8 deposit_checking = refl
from_u8-to_u8 transact_savings = refl
from_u8-to_u8 write_check = refl
from_u8-to_u8 send_payment = refl

ap₃ :
    {A B : Type 0} (f : A → A → A → B) {a a' b b' c c' : A}
    → a ≡ a'
    → b ≡ b'
    → c ≡ c'
    → f a b c ≡ f a' b' c'
ap₃ f p q r = cc

-- A payload whose numbers fit into 64 bits is read back from its bytes.
pub from_bytes-to_bytes :
    (t : SmallBankTransaction)
    → t.account_id < 18446744073709551616
    → t.dest_account_id < 18446744073709551616
    → t.amount < 18446744073709551616
    → from_bytes (to_bytes t) ≡ some t
unfolding from_bytes to_bytes pow256
from_bytes-to_bytes t ha hd hm = rw (from_u8-to_u8 t.tx_type) (
    ap₃
      (λ a d m.
        some (record { tx_type = t.tx_type; account_id = a; dest_account_id = d; amount = m }))
      (from_be_bytes-be_bytes 8 t.account_id ha) (from_be_bytes-be_bytes 8 t.dest_account_id hd)
      (from_be_bytes-be_bytes 8 t.amount hm))
