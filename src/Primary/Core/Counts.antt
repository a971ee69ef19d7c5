-- ===== src/Primary/Core/Counts.antt =====
-- primary/src/core.rs: the account counts of a header against those of its batches.
use dag_bft_sigmod.Base.{
  ℕ, ◌+◌, ◌%◌, ◌<◌, true, false, none, some, [], ◌∷◌, ◌≡◌, refl, ap, sym, subst, arith,
  if◌then◌else◌, ◌==◌, ==_iff, nat_eq, length, contains, Distinct, inl, inr, ◌⊎◌, Option-cases,
  Bool-cases,
}
use dag_bft_sigmod.Base.Keys.{insert-Distinct, remove-Distinct, length-remove}
use dag_bft_sigmod.Base.Maps.{
  Map, keys, lookup, insert, upsert, remove, get_or, lookup-insert, lookup-remove,
}
use dag_bft_sigmod.Config.{WorkerId}
use dag_bft_sigmod.Primary.Errors.{Digest, DagError, DagResult, ok, err}
use dag_bft_sigmod.Primary.Node.{Node, payload_key}
use dag_bft_sigmod.Primary.Core.Admission.{add_counts, included, same_map, expected_counts}

abbrev pub Counts : Type 0
Counts = Map ℕ ℕ

abbrev pub count_of : ℕ → Counts → ℕ
count_of account counts = get_or 0 (lookup account counts)

-- What the entries of an account sum to.
unfoldable pub sum_of : ℕ → Counts → ℕ
sum_of account [] = 0
sum_of account ((k, n) ∷ counts) = (if k == account then n else 0) + sum_of account counts

module _ {S : Type 0} (node : Node S) (store : S) where
  -- The counts that the store holds with a batch; none, if it holds no batch or no counts.
  unfoldable pub stored_counts : Digest → WorkerId → Counts
  stored_counts digest worker_id = elim (node.backend.read store (payload_key digest worker_id)) [
    | err _ ↦ []
    | ok none ↦ []
    | ok (some bytes) ↦ get_or [] (node.codec.deserialize_counts bytes)
  ]

  -- How often the batches of a payload touch an account.
  unfoldable pub payload_count : ℕ → Map Digest WorkerId → ℕ
  unfolding sum_of stored_counts
  payload_count account [] = 0
  payload_count account ((digest, worker_id) ∷ payload) =
      sum_of account (stored_counts digest worker_id) + payload_count account payload

pub DagResult-cases :
    {A : Type 0} (r : DagResult A) → ((e : DagError) × (r ≡ err e)) ⊎ ((a : A) × (r ≡ ok a))
DagResult-cases (ok a) = inr (a, refl)
DagResult-cases (err e) = inl (e, refl)

add_counts-count_of :
    (account : ℕ) (counts expected : Counts)
    → count_of account expected < 65536
    → count_of account (add_counts counts expected)
      ≡ (count_of account expected + sum_of account counts) % 65536
unfolding add_counts sum_of upsert
add_counts-count_of account [] expected small = omega arith
add_counts-count_of account ((k, n) ∷ counts) expected small =
    let more : ℕ = (get_or 0 (lookup k expected) + n) % 65536 in
    let here : count_of account (insert k more expected)
        ≡ (if k == account then more else count_of account expected) =
      ground (arith, lookup-insert k account more expected) in
    elim (Bool-cases (k == account)) [
      | inl same ↦
          let key : k ≡ account = (==_iff k account).0 same in
          let at : get_or 0 (lookup k expected) ≡ count_of account expected =
            ap (λ j. count_of j expected) key in
          let now : count_of account (insert k more expected) ≡ more = ground arith in
          let rest =
            add_counts-count_of account counts (insert k more expected) (omega (arith, now)) in
          rw same (omega (arith, rest, now, at))
      | inr other ↦
          let now : count_of account (insert k more expected) ≡ count_of account expected =
            ground arith in
          let rest =
            add_counts-count_of account counts (insert k more expected) (omega (arith, now)) in
          rw other (omega (arith, rest, now))
    ]

included-remove :
    (k : ℕ) (xs ys : Counts)
    → contains (keys xs) k ≡ false
    → included xs ys ≡ true
    → included xs (remove k ys) ≡ true
unfolding included contains
included-remove k [] ys a h = refl
included-remove k ((j, v) ∷ xs) ys a h =
    ground (arith, lookup-remove k j ys, ==_iff k j, ==_iff j k, included-remove k xs ys)

-- Maps that pass the test of equality hold the same value under each key.
included-lookup :
    (xs ys : Counts) (j : ℕ)
    → Distinct (keys xs)
    → Distinct (keys ys)
    → length xs ≡ length ys
    → included xs ys ≡ true
    → lookup j xs ≡ lookup j ys
unfolding included lookup
included-lookup [] [] j dx dy n h = refl
included-lookup [] (y ∷ ys) j dx dy n h = absurd (omega (arith, n))
included-lookup ((k, v) ∷ xs) ys j dx dy n h = elim (Option-cases (lookup k ys)) [
  | inl none_there ↦ absurd (ground arith)
  | inr (w, l) ↦
      let rest =
        included-lookup xs (remove k ys) j dx.1 (remove-Distinct k ys dy)
          (omega (arith, n, length-remove k w ys dy l))
          (included-remove k xs ys dx.0 (ground arith)) in
      let same : v ≡ w = ground (arith, ==_iff v w) in
      ground (arith, lookup-remove k j ys, ==_iff k j, rest)
]

add_counts-Distinct :
    (counts expected : Counts)
    → Distinct (keys expected)
    → Distinct (keys (add_counts counts expected))
unfolding add_counts upsert
add_counts-Distinct [] expected d = d
add_counts-Distinct ((k, n) ∷ counts) expected d =
    let more : ℕ = (get_or 0 (lookup k expected) + n) % 65536 in
    add_counts-Distinct counts (insert k more expected) (insert-Distinct k more expected d)

-- The expected counts are sums, with the wrap-around of `u16`, and list each account once.
record IsTotal {S : Type 0} (node : Node S) (store : S) (payload : Map Digest WorkerId)
    (before after : Counts) : Type 0 where
  distinct : Distinct (keys after)
  total :
      (account : ℕ)
      → count_of account before < 65536
      → count_of account after
        ≡ (count_of account before + payload_count node store account payload) % 65536

module _ {S : Type 0} (node : Node S) (store : S) where
  expected_counts-IsTotal :
      (payload : Map Digest WorkerId) (expected counts : Counts)
      → Distinct (keys expected)
      → expected_counts node store payload expected ≡ ok counts
      → IsTotal node store payload expected counts
  unfolding expected_counts payload_count stored_counts sum_of
  expected_counts-IsTotal [] expected counts d h =
      let same : expected ≡ counts = ground arith in
      subst (IsTotal node store [] expected) same
        (record { distinct = d; total = λ a small. omega arith })
  expected_counts-IsTotal ((digest, worker_id) ∷ payload) expected counts d h =
      elim (DagResult-cases (node.backend.read store (payload_key digest worker_id))) [
        | inl (f, r) ↦ absurd (ground arith)
        | inr (none, r) ↦
            let later = expected_counts-IsTotal payload expected counts d (ground arith) in
            record { distinct = later.distinct; total = λ a small. ground (arith, later.total a) }
        | inr (some bytes, r) ↦ elim (Option-cases (node.codec.deserialize_counts bytes)) [
          | inl n ↦
              let later = expected_counts-IsTotal payload expected counts d (ground arith) in
              record { distinct = later.distinct; total = λ a small. ground (arith, later.total a) }
          | inr (batch, b) ↦
              let later =
                expected_counts-IsTotal payload (add_counts batch expected) counts
                  (add_counts-Distinct batch expected d) (ground arith) in
              record {
                distinct = later.distinct;
                total = λ a small.
                    let now = add_counts-count_of a batch expected small in
                    ground (arith, now, later.total a);
              }
        ]
      ]

  -- Counts that pass the test of `check_counts` are the sums over the batches.
  pub same_map-payload_count :
      (payload : Map Digest WorkerId) (expected claimed : Counts) (account : ℕ)
      → expected_counts node store payload [] ≡ ok expected
      → Distinct (keys claimed)
      → same_map expected claimed ≡ true
      → count_of account claimed ≡ payload_count node store account payload % 65536
  unfolding same_map lookup
  same_map-payload_count payload expected claimed account h d same =
      let sums = expected_counts-IsTotal payload [] expected tt h in
      let equal =
        included-lookup expected claimed account sums.distinct d
          (ground (arith, ==_iff (length expected) (length claimed))) (ground arith) in
      let found : count_of account claimed ≡ count_of account expected =
        ap (get_or 0) (sym equal) in
      omega (arith, found, sums.total account (omega arith))
