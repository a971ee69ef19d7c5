-- ===== src/Base/Keys.antt =====
-- Maps whose keys are numbers, each listed once: a `HashMap` has no key twice.
use dag_bft_sigmod.Base.{
  ℕ, suc, ◌||◌, false, none, some, [], ◌∷◌, ◌≡◌, refl, sym, ◌∙◌, ap, arith, ◌==◌, ==_iff, nat_eq,
  length, contains, Distinct, inl, inr, Bool-cases,
}
use dag_bft_sigmod.Base.Maps.{Map, keys, lookup, insert, remove}

module _ {ℓ} {V : Type ℓ} where
  pub insert_absent :
      (k j : ℕ) (v : V) (m : Map ℕ V)
      → contains (keys (insert k v m)) j ≡ (contains (keys m) j || k == j)
  unfolding insert contains
  insert_absent k j v [] = ground arith
  insert_absent k j v ((i, w) ∷ m) = ground (arith, ==_iff i k, insert_absent k j v m)

  pub insert-Distinct :
      (k : ℕ) (v : V) (m : Map ℕ V) → Distinct (keys m) → Distinct (keys (insert k v m))
  unfolding insert contains
  insert-Distinct k v [] d = (refl, tt)
  insert-Distinct k v ((j, w) ∷ m) d =
      ground (arith, ==_iff k j, ==_iff j k, insert-Distinct k v m d.1, insert_absent k j v m)

  pub lookup-absent : (k : ℕ) (m : Map ℕ V) → contains (keys m) k ≡ false → lookup k m ≡ none
  unfolding lookup contains
  lookup-absent k [] h = refl
  lookup-absent k ((j, w) ∷ m) h = ground (arith, lookup-absent k m)

  remove-none : (k : ℕ) (m : Map ℕ V) → contains (keys m) k ≡ false → remove k m ≡ m
  unfolding remove contains
  remove-none k [] h = refl
  remove-none k ((j, w) ∷ m) h = ground (arith, remove-none k m)

  remove_absent :
      (k j : ℕ) (m : Map ℕ V) → contains (keys m) j ≡ false → contains (keys (remove k m)) j ≡ false
  unfolding remove contains
  remove_absent k j [] h = refl
  remove_absent k j ((i, w) ∷ m) h = ground (arith, remove_absent k j m)

  pub remove-Distinct : (k : ℕ) (m : Map ℕ V) → Distinct (keys m) → Distinct (keys (remove k m))
  unfolding remove
  remove-Distinct k [] d = tt
  remove-Distinct k ((j, w) ∷ m) d =
      ground (arith, remove-Distinct k m d.1, remove_absent k j m d.0)

  pub length-remove :
      (k : ℕ) (v : V) (m : Map ℕ V)
      → Distinct (keys m)
      → lookup k m ≡ some v
      → length m ≡ suc (length (remove k m))
  unfolding remove lookup
  length-remove k v [] d h = absurd (cc)
  length-remove k v ((j, w) ∷ m) d h = elim (Bool-cases (j == k)) [
    | inl e ↦
        let same : j ≡ k = (==_iff j k).0 e in
        let gone : contains (keys m) k ≡ false = ap (contains (keys m)) (sym same) ∙ d.0 in
        rw e (ap (λ l. suc (length l)) (sym (remove-none k m gone)))
    | inr e ↦ ground (arith, length-remove k v m d.1)
  ]
