-- ===== src/Primary/Core/Admission.antt =====
-- primary/src/core.rs: the checks of `process_header` on the ancestors and the payload of a header.
-- They read the store and change nothing else, so their result is a value.
use dag_bft_sigmod.Base.{
  ℕ, ◌+◌, Bool, true, false, ◌&&◌, ◌||◌, none, some, List, [], ◌∷◌, if◌then◌else◌, leb, ◌==◌, u32,
  u64, length, nat_eq, ◌%◌,
}
use dag_bft_sigmod.Base.Maps.{Map, lookup, upsert}
use dag_bft_sigmod.Config.{WorkerId, Committee, stake, quorum_threshold}
use dag_bft_sigmod.Primary.Errors.{
  Digest, DagError, DagResult, ok, err, ◌>>=◌, ensure, malformed_header, header_requires_quorum,
}
use dag_bft_sigmod.Primary.Messages.{Header, Certificate, round_of, origin}
use dag_bft_sigmod.Primary.Node.{Node, Output, payload_key}
use dag_bft_sigmod.Primary.Synchronizer.{get_parents, missing_payload}

-- A refused header, one whose processing waits, with what is sent, or one to store and vote for.
pub data Admission : Type 0 where
  rejected : DagError → Admission
  suspended : List Output → Admission
  admitted : Admission

-- The loop over the parents: all of them from the previous round. Gives their stake.
unfoldable pub parents_stake : Committee → Header → List Certificate → ℕ → DagResult ℕ
parents_stake c h [] total = ok total
parents_stake c h (x ∷ xs) total =
    let rest = parents_stake c h xs (u32 (total + stake c (origin x))) in
    if u64 (round_of x + 1) == h.round then rest else err (malformed_header h.id)

unfoldable pub check_parents : Committee → Header → List Certificate → DagResult (Unit {0})
unfolding parents_stake
check_parents c h parents = do
  total ← parents_stake c h parents 0
  ensure (leb (quorum_threshold c) total) (header_requires_quorum h.id)

-- `*expected.entry(acc).or_insert(0) += cnt` on `u16`, for every account of a batch.
unfoldable pub add_counts : Map ℕ ℕ → Map ℕ ℕ → Map ℕ ℕ
unfolding upsert
add_counts [] expected = expected
add_counts ((account, count) ∷ counts) expected =
    add_counts counts (upsert account 0 (λ n. (n + count) % 65536) expected)

-- Equality of maps: as many keys, and the same value under each key.
unfoldable pub included : Map ℕ ℕ → Map ℕ ℕ → Bool
unfolding lookup
included [] m = true
included ((k, v) ∷ rest) m = elim (lookup k m) [ none ↦ false | some w ↦ v == w ] && included rest m

unfoldable pub same_map : Map ℕ ℕ → Map ℕ ℕ → Bool
unfolding included
same_map xs ys = length xs == length ys && included xs ys

module _ {S : Type 0} (node : Node S) (store : S) where
  unfoldable pub expected_counts : Map Digest WorkerId → Map ℕ ℕ → DagResult (Map ℕ ℕ)
  unfolding add_counts
  expected_counts [] expected = ok expected
  expected_counts ((digest, worker_id) ∷ payload) expected = do
    found ← node.backend.read store (payload_key digest worker_id)
    elim found [
      | none ↦ expected_counts payload expected
      | some bytes ↦ elim (node.codec.deserialize_counts bytes) [
        | none ↦ expected_counts payload expected
        | some counts ↦ expected_counts payload (add_counts counts expected)
      ]
    ]

  unfoldable pub check_counts : Header → DagResult (Unit {0})
  unfolding expected_counts same_map
  check_counts h = if h.author == node.name || node.baseline_mode then ok tt else (do
    expected ← expected_counts h.payload []
    ensure (same_map expected h.account_counts) (malformed_header h.id))

  -- From the parents to the counts: `process_header` up to the write of the header.
  unfoldable pub admit : Header → Admission
  unfolding check_parents check_counts
  admit h = elim (get_parents node store h) [
    | err e ↦ rejected e
    | ok ([], sent) ↦ suspended sent
    | ok (x ∷ xs, sent) ↦ elim (check_parents node.committee h (x ∷ xs)) [
      | err e ↦ rejected e
      | ok _ ↦ elim (missing_payload node store h) [
        | err e ↦ rejected e
        | ok (true, sent') ↦ suspended sent'
        | ok (false, _) ↦ elim (check_counts h) [ err e ↦ rejected e | ok _ ↦ admitted ]
      ]
    ]
  ]
