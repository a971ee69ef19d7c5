-- ===== src/Worker/Transaction.antt =====
-- worker/src/transaction.rs: the header of a transaction and its two accounts.
use dag_bft_sigmod.Base.{
  ℕ, ◌<◌, ◌≡◌, refl, sym, ap, ap₂, ◌∙◌, Bool, false, Option, none, some, List, ◌∷◌, ◌++◌, arith,
  length, if◌then◌else◌, ltb, ◌==◌, get_elem?, Bool-cases, inl, inr,
}
use dag_bft_sigmod.Primary.Messages.{be_bytes}
use dag_bft_sigmod.Worker.Bytes.{
  take, drop, slice, from_be_bytes, pow256, from_be_bytes-be_bytes, take-take, drop-take, drop-drop,
}
use dag_bft_sigmod.Worker.Workload.{SmallBankTransaction, from_bytes}

pub record TxId : Type 0 where
  pub region_id : ℕ
  pub tx_counter : ℕ

pub record TransactionHeader : Type 0 where
  pub tx_type : ℕ
  pub id : TxId

unfoldable pub parse_transaction_header : List ℕ → Option TransactionHeader
unfolding take drop get_elem?
parse_transaction_header bytes = if ltb (length bytes) 10 then none else elim (get_elem? bytes 0) [
  | none ↦ none
  | some tx_type ↦ elim (get_elem? bytes 1) [
    | none ↦ none
    | some region_id ↦ some (record {
      tx_type = tx_type;
      id = record { region_id = region_id; tx_counter = from_be_bytes (slice 2 10 bytes) };
    })
  ]
]

abbrev pub is_sample : TransactionHeader → Bool
is_sample h = h.tx_type == 0

unfoldable pub extract_account_ids : List ℕ → Option ℕ × Option ℕ
unfolding take drop
extract_account_ids raw =
    if ltb (length raw) 26
    then (none, none)
    else (some (from_be_bytes (slice 10 18 raw)), some (from_be_bytes (slice 18 26 raw)))

unfoldable pub parse_smallbank_payload : List ℕ → Option SmallBankTransaction
unfolding from_bytes
parse_smallbank_payload raw = if ltb (length raw) 35 then none else from_bytes (slice 10 35 raw)

-- A header of one byte for the type, one for the region and eight for the counter, whatever comes
-- after it.
pub parse_transaction_header-be_bytes :
    (tx_type region_id tx_counter : ℕ) (payload : List ℕ)
    → tx_counter < 18446744073709551616
    → parse_transaction_header (tx_type ∷ region_id ∷ (be_bytes 8 tx_counter ++ payload))
      ≡ some (record {
        tx_type = tx_type;
        id = record { region_id = region_id; tx_counter = tx_counter };
      })
unfolding parse_transaction_header be_bytes pow256
parse_transaction_header-be_bytes tx_type region_id tx_counter payload h =
    ground (arith, from_be_bytes-be_bytes 8 tx_counter h)

from_bytes_accounts :
    (bytes : List ℕ) (t : SmallBankTransaction)
    → from_bytes bytes ≡ some t
    → (t.account_id ≡ from_be_bytes (slice 0 8 bytes))
      × (t.dest_account_id ≡ from_be_bytes (slice 8 16 bytes))
unfolding from_bytes
from_bytes_accounts bytes t e = ground arith

-- Where the payload of a transaction can be read, the accounts that are extracted for its routing
-- are the accounts of the payload.
pub extract_account_ids-parse :
    (raw : List ℕ) (t : SmallBankTransaction)
    → parse_smallbank_payload raw ≡ some t
    → extract_account_ids raw ≡ (some t.account_id, some t.dest_account_id)
unfolding parse_smallbank_payload extract_account_ids
extract_account_ids-parse raw t e = elim (Bool-cases (ltb (length raw) 35)) [
  | inl short ↦ absurd (ground arith)
  | inr long ↦
      let payload = drop 10 raw in
      let parsed : from_bytes (take 25 payload) ≡ some t = ground arith in
      let (src, dest) = from_bytes_accounts (take 25 payload) t parsed in
      let first : take 8 (take 25 payload) ≡ take 8 (drop 10 raw) =
        take-take 8 25 payload (omega arith) in
      let second : take 8 (drop 8 (take 25 payload)) ≡ take 8 (drop 18 raw) =
        ap (take 8) (drop-take 8 17 25 payload refl)
        ∙ (take-take 8 17 (drop 8 payload) (omega arith)
            ∙ ap (take 8) (drop-drop 8 10 18 raw refl)) in
      let enough : ltb (length raw) 26 ≡ false = ground arith in
      rw enough (
        ap₂ (λ a b. (some a, some b)) (sym (src ∙ ap from_be_bytes first))
          (sym (dest ∙ ap from_be_bytes second)))
]
