-- ===== src/Worker/BatchExecutor/Batches/Malformed.antt =====
-- worker/src/batch_executor.rs: a transaction with a header and no payload.
use mathlib.Core.List.{Memᴰ}
use dag_bft_sigmod.Base.{
  ℕ, zero, suc, ◌≤◌, ◌<◌, false, none, some, List, [], ◌∷◌, ◌≡◌, inl, inr, refl, subst, arith,
  length, ltb, get_elem?, nat_eq, Option-cases, Bool-cases, Memᴰ-cons,
}
use dag_bft_sigmod.Base.Maps.{Map}
use dag_bft_sigmod.Primary.Errors.{Digest}
use dag_bft_sigmod.Worker.Bytes.{from_be_bytes, slice}
use dag_bft_sigmod.Worker.Transaction.{
  TransactionHeader, parse_transaction_header, parse_smallbank_payload,
}
use dag_bft_sigmod.Worker.BatchExecutor.{Execution, ExecutorSetup, Partition}
use dag_bft_sigmod.Worker.BatchExecutor.Scheduler.{
  extract_required_accounts, tally_votes, choose_executor, add_load, update_owners, zero_loads,
  schedule_new, schedule_old,
}
use dag_bft_sigmod.Worker.BatchExecutor.Batches.{
  parse_and_schedule_batch_transactions, scheduled_by, execute_batch,
}

get_elem?-some : (xs : List ℕ) (i : ℕ) → i < length xs → (x : ℕ) × (get_elem? xs i ≡ some x)
unfolding get_elem?
get_elem?-some [] i h = absurd (omega arith)
get_elem?-some (x ∷ xs) zero h = (x, refl)
get_elem?-some (x ∷ xs) (suc i) h = get_elem?-some xs i (omega arith)

-- A header is read, the accounts are not.
abbrev Malformed : List ℕ → Type 0
Malformed raw =
    ((header : TransactionHeader) × (parse_transaction_header raw ≡ some header))
    × (extract_required_accounts raw ≡ none)

short-Malformed : (raw : List ℕ) → 10 ≤ length raw → length raw < 35 → Malformed raw
unfolding parse_transaction_header extract_required_accounts parse_smallbank_payload
short-Malformed raw long short =
    let (a, first) = get_elem?-some raw 0 (omega arith) in
    let (b, second) = get_elem?-some raw 1 (omega arith) in
    let enough : ltb (length raw) 10 ≡ false = ground arith in
    let read : parse_transaction_header raw
        ≡ some (record {
          tx_type = a;
          id = record { region_id = b; tx_counter = from_be_bytes (slice 2 10 raw) };
        }) =
      ground arith in
    let unread : parse_smallbank_payload raw ≡ none = ground arith in
    ((_, read), rw (extract_required_accounts, unread) refl)

schedule_old-Malformed :
    (p : Partition) (txs : List (List ℕ)) (raw : List ℕ)
    → Memᴰ raw txs
    → Malformed raw
    → schedule_old p txs ≡ none
unfolding schedule_old
schedule_old-Malformed p [] raw m bad = elim m [ ]
schedule_old-Malformed p (tx ∷ txs) raw m bad = elim (Memᴰ-cons m) [
  | inl e ↦ let ((header, h), x) = subst Malformed e bad in rw (schedule_old, h, x) refl
  | inr later ↦
      let rest = schedule_old-Malformed p txs raw later bad in
      elim (Option-cases (parse_transaction_header tx)) [
        | inl n ↦ ground arith
        | inr (header, h) ↦ elim (Option-cases (extract_required_accounts tx)) [
          | inl n ↦ ground arith
          | inr ([], r) ↦ ground arith
          | inr (account ∷ accounts, r) ↦ ground arith
        ]
      ]
]

schedule_new-Malformed :
    (max_allowed : ℕ) (p : Partition) (owners : Map ℕ ℕ) (loads : List ℕ) (txs : List (List ℕ))
    (raw : List ℕ)
    → Memᴰ raw txs
    → Malformed raw
    → schedule_new max_allowed p owners loads txs ≡ none
unfolding schedule_new
schedule_new-Malformed max_allowed p owners loads [] raw m bad = elim m [ ]
schedule_new-Malformed max_allowed p owners loads (tx ∷ txs) raw m bad = elim (Memᴰ-cons m) [
  | inl e ↦ let ((header, h), x) = subst Malformed e bad in rw (schedule_new, h, x) refl
  | inr later ↦ elim (Option-cases (parse_transaction_header tx)) [
    | inl n ↦
        rw (schedule_new, n) (schedule_new-Malformed max_allowed p owners loads txs raw later bad)
    | inr (header, h) ↦ elim (Option-cases (extract_required_accounts tx)) [
      | inl n ↦ ground arith
      | inr (required, r) ↦ elim (Option-cases (tally_votes owners p required [])) [
        | inl n ↦ ground arith
        | inr (votes, v) ↦ elim (Option-cases (choose_executor max_allowed loads votes)) [
          | inl n ↦ ground arith
          | inr (target, c) ↦
              let rest =
                schedule_new-Malformed max_allowed p (update_owners target required owners)
                  (add_load target loads) txs raw later bad in
              rw (schedule_new, h, r, v, c, rest) refl
        ]
      ]
    ]
  ]
]

schedule-Malformed :
    (setup : ExecutorSetup) (txs : List (List ℕ)) (raw : List ℕ) (st : Execution)
    → Memᴰ raw txs
    → Malformed raw
    → parse_and_schedule_batch_transactions setup txs st ≡ none
unfolding parse_and_schedule_batch_transactions scheduled_by
schedule-Malformed setup txs raw st m bad = elim (Bool-cases setup.use_new_scheduler) [
  | inl e ↦
      let panic =
        schedule_new-Malformed (setup.max_allowed (length txs)) st.states_schedule_partition []
          (zero_loads setup.num_executors) txs raw m bad in
      rw (e, panic) refl
  | inr e ↦ rw (e, schedule_old-Malformed st.states_schedule_partition txs raw m bad) refl
]

-- A batch with a transaction that has a header and is too short for its payload makes each executor
-- panic, with the old scheduler and with the new one.
pub execute_batch-malformed :
    (setup : ExecutorSetup) (digest : Digest) (txs : List (List ℕ)) (raw : List ℕ) (st : Execution)
    → Memᴰ raw txs
    → 10 ≤ length raw
    → length raw < 35
    → execute_batch setup digest txs st ≡ none
unfolding execute_batch
execute_batch-malformed setup digest txs raw st m long short =
    rw (schedule-Malformed setup txs raw st m (short-Malformed raw long short)) refl
