-- ===== src/Primary/Core/Quorum.antt =====
-- primary/src/core.rs: what a header needs to be stored and voted for.
use dag_bft_sigmod.Base.{
  some, Distinct, Option-cases, ℕ, ◌+◌, ◌%◌, ◌≤◌, true, false, List, [], ◌∷◌, ◌≡◌, refl, arith, All,
  ◌==◌, ==_iff, leb→le, u32, u64, nat_eq, ◌⊎◌, inl, inr, Bool-cases,
}
use dag_bft_sigmod.Base.Maps.{Map, keys, insert}
use dag_bft_sigmod.Config.{WorkerId, Committee, stake, quorum_threshold}
use dag_bft_sigmod.Primary.Errors.{Digest, ok}
use dag_bft_sigmod.Primary.Messages.{Header, Certificate, round_of, origin}
use dag_bft_sigmod.Primary.Node.{Node, Output, payload_key}
use dag_bft_sigmod.Primary.Synchronizer.{
  find_parents, get_parents, missing_batches, missing_payload,
}
use dag_bft_sigmod.Store.{Value}
use dag_bft_sigmod.Primary.Core.Parents.{AllAtHand, find_parents-AllAtHand}
use dag_bft_sigmod.Primary.Core.Counts.{
  count_of, payload_count, DagResult-cases, same_map-payload_count,
}
use dag_bft_sigmod.Primary.Core.Admission.{
  admitted, admit, check_parents, parents_stake, check_counts, expected_counts, same_map,
}

-- The stake of the parents' authors.
unfoldable pub stake_of_parents : Committee → List Certificate → ℕ
stake_of_parents c [] = 0
stake_of_parents c (x ∷ xs) = stake c (origin x) + stake_of_parents c xs

parents_stake_ok :
    (c : Committee) (h : Header) (xs : List Certificate) (total weight : ℕ)
    → parents_stake c h xs total ≡ ok weight
    → total % 4294967296 ≡ total
    → All (λ x. u64 (round_of x + 1) ≡ h.round) xs × (weight ≡ u32 (total + stake_of_parents c xs))
unfolding parents_stake stake_of_parents
parents_stake_ok c h [] total weight e small = (tt, ground arith)
parents_stake_ok c h (x ∷ xs) total weight e small =
    let next = u32 (total + stake c (origin x)) in
    let rest : parents_stake c h xs next ≡ ok weight = ground arith in
    let (rounds, sum) = parents_stake_ok c h xs next weight rest (omega arith) in
    ((ground (arith, ==_iff (u64 (round_of x + 1)) h.round), rounds), omega arith)

check_parents_ok :
    (c : Committee) (h : Header) (xs : List Certificate)
    → check_parents c h xs ≡ ok tt
    → All (λ x. u64 (round_of x + 1) ≡ h.round) xs
      × (quorum_threshold c ≤ u32 (stake_of_parents c xs))
unfolding check_parents
check_parents_ok c h xs e = elim (DagResult-cases (parents_stake c h xs 0)) [
  | inl (f, p) ↦ absurd (ground arith)
  | inr (weight, p) ↦
      let (rounds, sum) = parents_stake_ok c h xs 0 weight p refl in
      (rounds, ground (arith, leb→le (quorum_threshold c) weight))
]

module _ {S : Type 0} (node : Node S) where
  get_parents_ok :
      (store : S) (h : Header) (x : Certificate) (xs : List Certificate) (sent : List Output)
      → get_parents node store h ≡ ok (x ∷ xs, sent)
      → find_parents node store h.parents ≡ ok ([], x ∷ xs)
  unfolding get_parents
  get_parents_ok store h x xs sent e = ground arith

  insert-nonempty : (k w : ℕ) (m : Map ℕ ℕ) → insert k w m ≡ [] → ⊥
  unfolding insert
  insert-nonempty k w [] h = absurd (cc)
  insert-nonempty k w ((j, v) ∷ m) h = absurd (ground arith)

  -- The store lists the batch for its worker.
  abbrev pub HasBatch : S → Digest × WorkerId → Type 0
  HasBatch store batch =
      (v : Value) × (node.backend.read store (payload_key batch.0 batch.1) ≡ ok (some v))

  missing_batches-none :
      (store : S) (payload : Map Digest WorkerId)
      → missing_batches node store payload ≡ ok []
      → All (HasBatch store) payload
  unfolding missing_batches
  missing_batches-none store [] e = tt
  missing_batches-none store ((digest, worker_id) ∷ payload) e =
      elim (DagResult-cases (node.backend.read store (payload_key digest worker_id))) [
        | inl (f, r) ↦ absurd (ground arith)
        | inr (found, r) ↦ elim (DagResult-cases (missing_batches node store payload)) [
          | inl (f, m) ↦ absurd (ground arith)
          | inr (missing, m) ↦ elim (Option-cases found) [
            | inl n ↦ absurd (insert-nonempty digest worker_id missing (ground arith))
            | inr (v, s) ↦ ((v, ground arith), missing_batches-none store payload (ground arith))
          ]
        ]
      ]

  missing_payload_ok :
      (store : S) (h : Header) (sent : List Output)
      → missing_payload node store h ≡ ok (false, sent)
      → (h.author ≡ node.name) ⊎ All (HasBatch store) h.payload
  unfolding missing_payload
  missing_payload_ok store h sent e = elim (Bool-cases (h.author == node.name)) [
    | inl own ↦ inl ((==_iff h.author node.name).0 own)
    | inr other ↦ inr (missing_batches-none store h.payload (ground arith))
  ]

  -- Each account's count is how often the batches touch it, with the wrap-around of `u16`; an account
  -- that the header does not list counts 0.
  abbrev pub HasTrueCounts : S → Header → Type 0
  HasTrueCounts store h =
      (account : ℕ)
      → count_of account h.account_counts ≡ payload_count node store account h.payload % 65536

  check_counts_ok :
      (store : S) (h : Header)
      → Distinct (keys h.account_counts)
      → check_counts node store h ≡ ok tt
      → (h.author ≡ node.name) ⊎ (node.baseline_mode ≡ true) ⊎ HasTrueCounts store h
  unfolding check_counts
  check_counts_ok store h d e = elim (Bool-cases (h.author == node.name)) [
    | inl own ↦ inl ((==_iff h.author node.name).0 own)
    | inr other ↦ elim (Bool-cases node.baseline_mode) [
      | inl baseline ↦ inr (inl baseline)
      | inr counted ↦ elim (DagResult-cases (expected_counts node store h.payload [])) [
        | inl (f, p) ↦ absurd (ground arith)
        | inr (expected, p) ↦
            let equal : same_map expected h.account_counts ≡ true = ground arith in
            inr (
              inr (λ account.
                same_map-payload_count node store h.payload expected h.account_counts account p d
                  equal))
      ]
    ]
  ]

  -- What `admit` makes sure of.
  pub record IsSound (store : S) (h : Header) (parents : List Certificate) : Type 0 where
    pub found : AllAtHand node store h.parents parents
    pub rounds : All (λ x. u64 (round_of x + 1) ≡ h.round) parents
    pub quorum : quorum_threshold node.committee ≤ u32 (stake_of_parents node.committee parents)
    pub payload : (h.author ≡ node.name) ⊎ All (HasBatch store) h.payload
    pub counts : (h.author ≡ node.name) ⊎ (node.baseline_mode ≡ true) ⊎ HasTrueCounts store h

  -- A header that lists each account once and is admitted, to be stored and voted for: for each of its
  -- parents' digests the genesis or the store has the certificate; the parents are all from the
  -- previous round, with a quorum by their stake; unless the header is our own, the store lists each of
  -- its batches for its worker and, outside baseline mode, its count of each account, 0 where it lists
  -- none, is the sum of what the store holds for its batches, modulo 2^16.
  pub admit-IsSound :
      (store : S) (h : Header)
      → Distinct (keys h.account_counts)
      → admit node store h ≡ admitted
      → (parents : List Certificate) × IsSound store h parents
  unfolding admit
  admit-IsSound store h d e = elim (DagResult-cases (get_parents node store h)) [
    | inl (f, g) ↦ absurd (ground arith)
    | inr (([], sent), g) ↦ absurd (ground arith)
    | inr ((x ∷ xs, sent), g) ↦ elim (DagResult-cases (check_parents node.committee h (x ∷ xs))) [
      | inl (f, c) ↦ absurd (ground arith)
      | inr (_, c) ↦ elim (DagResult-cases (missing_payload node store h)) [
        | inl (f, m) ↦ absurd (ground arith)
        | inr ((true, sent'), m) ↦ absurd (ground arith)
        | inr ((false, sent'), m) ↦ elim (DagResult-cases (check_counts node store h)) [
          | inl (f, k) ↦ absurd (ground arith)
          | inr (_, k) ↦
              let (rounds, quorum) = check_parents_ok node.committee h (x ∷ xs) c in
              (
                x ∷ xs,
                record {
                  found =
                      find_parents-AllAtHand node store h.parents (x ∷ xs)
                        (get_parents_ok store h x xs sent g);
                  rounds = rounds;
                  quorum = quorum;
                  payload = missing_payload_ok store h sent' m;
                  counts = check_counts_ok store h d k;
                },
              )
        ]
      ]
    ]
  ]
