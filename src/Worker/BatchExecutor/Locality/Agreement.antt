-- ===== src/Worker/BatchExecutor/Locality/Agreement.antt =====
-- worker/src/batch_executor.rs: all executors change their partitions in the same way.
use dag_bft_sigmod.Base.{
  ℕ, true, ◌||◌, some, List, [], ◌∷◌, ◌≡◌, ◌⊎◌, inl, inr, refl, subst, arith, if◌then◌else◌, ◌==◌,
  ==_iff, nat_eq, contains, Option-cases, Bool-cases,
}
use dag_bft_sigmod.Base.Maps.{lookup, insert, lookup-insert, keys}
use dag_bft_sigmod.Worker.BatchExecutor.{Partition, TransactionLocality}
use dag_bft_sigmod.Worker.BatchExecutor.Locality.{
  get_executor_id_by_partition, owners, missing_accounts, owned_accounts, other_accounts,
  locality_of, determine_locality, assign, assign_missing, update_partition_for_locality,
}

lookup-assign :
    (k e : ℕ) (accounts : List ℕ) (p : Partition)
    → lookup k (assign e accounts p) ≡ (if contains accounts k then some e else lookup k p)
unfolding assign contains
lookup-assign k e [] p = refl
lookup-assign k e (a ∷ accounts) p =
    ground (arith, lookup-assign k e accounts (insert a e p), lookup-insert a k e p)

lookup-assign_missing :
    (k e : ℕ) (accounts : List (ℕ × ℕ)) (p : Partition)
    → lookup k (assign_missing e accounts p)
      ≡ (if contains (keys accounts) k then some e else lookup k p)
unfolding assign_missing contains
lookup-assign_missing k e [] p = refl
lookup-assign_missing k e ((a, src) ∷ accounts) p =
    ground (arith, lookup-assign_missing k e accounts (insert a e p), lookup-insert a k e p)

-- A required account is another's and missing, or it is the executor's.
missing_accounts_split :
    (k e : ℕ) (p : Partition) (required : List ℕ) (accounts : List (ℕ × ℕ))
    → owners p required ≡ some accounts
    → ((contains required k ≡ contains (keys (missing_accounts e accounts)) k)
        ⊎ ((contains required k ≡ true) × (lookup k p ≡ some e)))
unfolding owners get_executor_id_by_partition missing_accounts contains
missing_accounts_split k e p [] accounts h = ground arith
missing_accounts_split k e p (a ∷ required) accounts h = elim (Option-cases (lookup a p)) [
  | inl n ↦ absurd (ground arith)
  | inr (owner, o) ↦ elim (Option-cases (owners p required)) [
    | inl n ↦ absurd (ground arith)
    | inr (later, l) ↦
        ground (arith, missing_accounts_split k e p required later l, ==_iff a k, ==_iff owner e)
  ]
]

-- Every required account is the executor's or another's.
contains-owned_accounts :
    (k e : ℕ) (p : Partition) (required : List ℕ) (accounts : List (ℕ × ℕ))
    → owners p required ≡ some accounts
    → contains required k
      ≡ (contains (owned_accounts e accounts) k || contains (other_accounts e accounts) k)
unfolding owners get_executor_id_by_partition owned_accounts other_accounts contains
contains-owned_accounts k e p [] accounts h = ground arith
contains-owned_accounts k e p (a ∷ required) accounts h = elim (Option-cases (lookup a p)) [
  | inl n ↦ absurd (ground arith)
  | inr (owner, o) ↦ elim (Option-cases (owners p required)) [
    | inl n ↦ absurd (ground arith)
    | inr (later, l) ↦ ground (arith, contains-owned_accounts k e p required later l)
  ]
]

update_partition-locality_of :
    (k e target : ℕ) (p : Partition) (required : List ℕ) (accounts : List (ℕ × ℕ))
    → owners p required ≡ some accounts
    → lookup k (update_partition_for_locality e p (locality_of e accounts target) required)
      ≡ (if contains required k then some target else lookup k p)
unfolding update_partition_for_locality locality_of contains assign_missing
update_partition-locality_of k e target p required accounts h = elim (Bool-cases (target == e)) [
  | inl mine ↦
      let split = missing_accounts_split k e p required accounts h in
      let same : target ≡ e = (==_iff target e).0 mine in
      ground (arith, split, lookup-assign_missing k e (missing_accounts e accounts) p)
  | inr theirs ↦
      let split = contains-owned_accounts k e p required accounts h in
      let owned = owned_accounts e accounts in
      let other = other_accounts e accounts in
      ground (
        arith,
        lookup-assign k target required p,
        lookup-assign k target owned p,
        lookup-assign k target other (assign target owned p),
      )
]

-- Whatever executor schedules a transaction, its partition then has the target for each account of
-- the transaction and is as before for the others, unless it panics since an account is unknown.
pub update_partition-determine_locality :
    (k e target : ℕ) (p : Partition) (required : List ℕ) (locality : TransactionLocality)
    → determine_locality e p required target ≡ some locality
    → lookup k (update_partition_for_locality e p locality required)
      ≡ (if contains required k then some target else lookup k p)
unfolding determine_locality
update_partition-determine_locality k e target p required locality h =
    elim (Option-cases (owners p required)) [
      | inl n ↦ absurd (ground arith)
      | inr (accounts, o) ↦
          let same : locality_of e accounts target ≡ locality = ground arith in
          subst
            (λ l.
              lookup k (update_partition_for_locality e p l required)
              ≡ (if contains required k then some target else lookup k p))
            same (update_partition-locality_of k e target p required accounts o)
    ]
