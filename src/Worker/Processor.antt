-- ===== src/Worker/Processor.antt =====
-- worker/src/processor.rs: a batch is hashed and stored, and its transactions are counted by account.
use dag_bft_sigmod.Base.{
  ℕ, suc, ◌+◌, ◌<◌, ◌%◌, ◌≡◌, ◌∙◌, ap, refl, Bool, true, false, ◌&&◌, Option, none, some, inl, inr,
  List, [], ◌∷◌, arith, if◌then◌else◌, leb, length, u32, ◌==◌, ==_iff, nat_eq, Bool-cases,
}
use dag_bft_sigmod.Base.Maps.{Map, lookup, insert, upsert, get_or, lookup-insert}
use dag_bft_sigmod.Config.{WorkerId}
use dag_bft_sigmod.Primary.Errors.{Digest}
use dag_bft_sigmod.Store.{StoreCommand, write}
use dag_bft_sigmod.Worker.Bytes.{slice, from_be_bytes}
use dag_bft_sigmod.Worker.BatchMaker.{Transaction, Batch}
use dag_bft_sigmod.Worker.Messages.{batch, batch_request, WorkerCodec}

-- `u64::from_be_bytes(tx[10..18]) as u32`.
abbrev pub counted_account : Transaction → ℕ
counted_account tx = u32 (from_be_bytes (slice 10 18 tx))

-- The counts are `u16` and wrap.
unfoldable pub count_accounts : List Transaction → Map ℕ ℕ → Map ℕ ℕ
unfolding upsert
count_accounts [] counts = counts
count_accounts (tx ∷ txs) counts = count_accounts txs (
    if leb 18 (length tx)
    then upsert (counted_account tx) 0 (λ n. (n + 1) % 65536) counts
    else counts)

unfoldable pub account_counts_of : WorkerCodec → Bool → List ℕ → Map ℕ ℕ
unfolding count_accounts
account_counts_of codec baseline_mode bytes =
    if baseline_mode then [] else elim (codec.deserialize bytes) [
      | some (batch txs) ↦ count_accounts txs []
      | some (batch_request _ _) ↦ []
      | none ↦ []
    ]

pub data WorkerPrimaryMessage : Type 0 where
  our_batch : Digest → WorkerId → Map ℕ ℕ → ℕ → WorkerPrimaryMessage
  others_batch : Digest → WorkerId → Map ℕ ℕ → WorkerPrimaryMessage

-- One turn of the loop: the write of the batch, and the message for the primary.
unfoldable pub process_batch :
    WorkerCodec → WorkerId → Bool → Bool → List ℕ → ℕ → StoreCommand × WorkerPrimaryMessage
unfolding account_counts_of
process_batch codec id own_digest baseline_mode bytes queue_delay_ms =
    let digest = codec.hash bytes in
    let account_counts = account_counts_of codec baseline_mode bytes in
    (
      write (codec.to_vec digest) bytes,
      if own_digest
          then our_batch digest id account_counts queue_delay_ms
          else others_batch digest id account_counts,
    )

-- The transactions of an account, where one is long enough to have an account.
unfoldable pub transactions_of : ℕ → List Transaction → ℕ
transactions_of account [] = 0
transactions_of account (tx ∷ txs) =
    let rest = transactions_of account txs in
    if leb 18 (length tx) && (counted_account tx == account) then suc rest else rest

taken : {b : Bool} → b ≡ true → (x y : Option ℕ) → (if b then x else y) ≡ x
taken e x y = rw e refl

skipped : {b : Bool} → b ≡ false → (x y : Option ℕ) → (if b then x else y) ≡ y
skipped e x y = rw e refl

count_accounts_lem :
    (account : ℕ) (txs : List Transaction) (counts : Map ℕ ℕ)
    → get_or 0 (lookup account counts) < 65536
    → get_or 0 (lookup account (count_accounts txs counts))
      ≡ (get_or 0 (lookup account counts) + transactions_of account txs) % 65536
unfolding count_accounts transactions_of
count_accounts_lem account [] counts small = omega arith
count_accounts_lem account (tx ∷ txs) counts small = elim (Bool-cases (leb 18 (length tx))) [
  | inr e ↦ rw e (count_accounts_lem account txs counts small)
  | inl e ↦
      let j = counted_account tx in
      let n = (get_or 0 (lookup j counts) + 1) % 65536 in
      let now = lookup-insert j account n counts in
      elim (Bool-cases (j == account)) [
        | inl same ↦
            let at : j ≡ account = (==_iff j account).0 same in
            let value : get_or 0 (lookup account (insert j n counts))
                ≡ (get_or 0 (lookup account counts) + 1) % 65536 =
              ap (get_or 0) (now ∙ taken same (some n) (lookup account counts))
              ∙ ap (λ i. (get_or 0 (lookup i counts) + 1) % 65536) at in
            let rest = count_accounts_lem account txs (insert j n counts) (omega (arith, value)) in
            rw (e, same) (omega (arith, rest, value))
        | inr other ↦
            let value : get_or 0 (lookup account (insert j n counts))
                ≡ get_or 0 (lookup account counts) =
              ap (get_or 0) (now ∙ skipped other (some n) (lookup account counts)) in
            let rest = count_accounts_lem account txs (insert j n counts) (omega (arith, value)) in
            rw (e, other) (omega (arith, rest, value))
      ]
]

-- The counts that a worker reports with a batch, outside of the baseline mode: for each account number
-- of 32 bits, the number of the transactions of that account that are long enough to have one, with
-- the wrap at 16 bits.
pub account_counts_lem :
    (codec : WorkerCodec) (bytes : List ℕ) (txs : Batch) (account : ℕ)
    → codec.deserialize bytes ≡ some (batch txs)
    → get_or 0 (lookup account (account_counts_of codec false bytes))
      ≡ transactions_of account txs % 65536
unfolding account_counts_of lookup
account_counts_lem codec bytes txs account e =
    rw e (omega (arith, count_accounts_lem account txs [] (omega arith)))
