-- ===== src/Worker/BatchExecutor/Locality/Handoff.antt =====
-- worker/src/batch_executor.rs: what one executor hands over is what the other waits for.
use dag_bft_sigmod.Base.{
  ℕ, suc, ◌&&◌, some, List, [], ◌∷◌, ◌≡◌, ◌≢◌, inl, inr, refl, subst, arith, if◌then◌else◌, ◌==◌,
  nat_eq, Option-cases,
}
use dag_bft_sigmod.Worker.BatchExecutor.{
  Partition, TransactionLocality, local, migrate_out, migrate_in, others,
}
use dag_bft_sigmod.Worker.BatchExecutor.Locality.{
  owners, missing_accounts, owned_accounts, locality_of, determine_locality,
}

unfoldable pub count : ℕ → List ℕ → ℕ
count k [] = 0
count k (x ∷ xs) = let rest = count k xs in if x == k then suc rest else rest

unfoldable pub count_pair : ℕ → ℕ → List (ℕ × ℕ) → ℕ
count_pair k e [] = 0
count_pair k e ((x, y) ∷ xs) =
    let rest = count_pair k e xs in if x == k && y == e then suc rest else rest

-- How often the account is handed over to the destination.
unfoldable pub hands_over : ℕ → ℕ → TransactionLocality → ℕ
unfolding count
hands_over k target (migrate_out owned other dest) = if dest == target then count k owned else 0
hands_over k target local = 0
hands_over k target (migrate_in accounts) = 0
hands_over k target (others executor) = 0

-- How often the account is awaited from the source.
unfoldable pub awaits : ℕ → ℕ → TransactionLocality → ℕ
unfolding count_pair
awaits k src (migrate_in accounts) = count_pair k src accounts
awaits k src local = 0
awaits k src (migrate_out owned other dest) = 0
awaits k src (others executor) = 0

count-owned_accounts :
    (k e : ℕ) (accounts : List (ℕ × ℕ))
    → count k (owned_accounts e accounts) ≡ count_pair k e accounts
unfolding count owned_accounts count_pair
count-owned_accounts k e [] = refl
count-owned_accounts k e ((x, y) ∷ accounts) = ground (arith, count-owned_accounts k e accounts)

count_pair-missing_accounts :
    (k e target : ℕ) (accounts : List (ℕ × ℕ))
    → e ≢ target
    → count_pair k e (missing_accounts target accounts) ≡ count_pair k e accounts
unfolding missing_accounts count_pair
count_pair-missing_accounts k e target [] h = refl
count_pair-missing_accounts k e target ((x, y) ∷ accounts) h =
    ground (arith, count_pair-missing_accounts k e target accounts h)

locality_of-handoff :
    (k e target : ℕ) (accounts : List (ℕ × ℕ))
    → e ≢ target
    → hands_over k target (locality_of e accounts target)
      ≡ awaits k e (locality_of target accounts target)
unfolding locality_of hands_over awaits count count_pair
locality_of-handoff k e target accounts h =
    ground
      (arith, count-owned_accounts k e accounts, count_pair-missing_accounts k e target accounts h)

-- Two executors with the same partition: for each account of a transaction, the target waits for it
-- from another executor exactly as often as that executor hands it over to the target.
pub determine_locality-handoff :
    (k e target : ℕ) (p : Partition) (required : List ℕ) (theirs ours : TransactionLocality)
    → e ≢ target
    → determine_locality e p required target ≡ some theirs
    → determine_locality target p required target ≡ some ours
    → hands_over k target theirs ≡ awaits k e ours
unfolding determine_locality
determine_locality-handoff k e target p required theirs ours h there here =
    elim (Option-cases (owners p required)) [
      | inl n ↦ absurd (ground arith)
      | inr (accounts, o) ↦
          let same : locality_of e accounts target ≡ theirs = ground arith in
          let same' : locality_of target accounts target ≡ ours = ground arith in
          subst (λ l. hands_over k target theirs ≡ awaits k e l) same'
            (subst (λ l. hands_over k target l ≡ awaits k e (locality_of target accounts target))
              same (locality_of-handoff k e target accounts h))
    ]
