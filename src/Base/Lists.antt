-- ===== src/Base/Lists.antt =====
-- Lists measured by native numbers, membership tests, and lists without repetition.
use Prim.Native.Nat.{ℕ, zero, suc, ◌+◌}
use mathlib.Core.Path.{◌≡◌, refl, sym, ap, subst, ◌∙◌}
use mathlib.Core.Logic.{◌⊎◌, inl, inr}
use mathlib.Core.Bool.{Bool, true, false, ◌||◌}
use mathlib.Core.List.{List, [], ◌∷◌, ◌++◌, Memᴰ}
use mathlib.Core.Option.{Option, none, some}
use native.Mathlib.Omega.{arith}
use dag_bft_sigmod.Base.Tests.{if◌then◌else◌, ◌==◌, ==_iff, Bool-cases}

module _ {ℓ} {A : Type ℓ} where
  abbrev pub length : List A → ℕ
  length [] = 0
  length (x ∷ xs) = suc (length xs)

  pub length-append : (xs ys : List A) → length (xs ++ ys) ≡ length xs + length ys
  length-append [] ys = omega arith
  length-append (x ∷ xs) ys = omega (arith, length-append xs ys)

  abbrev pub is_empty : List A → Bool
  is_empty [] = true
  is_empty (x ∷ xs) = false

  -- The elements that pass the test, in order (`Vec::retain`, `Iterator::filter`).
  unfoldable pub keep : (A → Bool) → List A → List A
  keep p [] = []
  keep p (x ∷ xs) = let rest = keep p xs in if p x then x ∷ rest else rest

  unfoldable pub any : (A → Bool) → List A → Bool
  any p [] = false
  any p (x ∷ xs) = p x || any p xs

  unfoldable pub find : (A → Bool) → List A → Option A
  find p [] = none
  find p (x ∷ xs) = let rest = find p xs in if p x then some x else rest

  unfoldable pub get_elem? : List A → ℕ → Option A
  get_elem? [] i = none
  get_elem? (x ∷ xs) zero = some x
  get_elem? (x ∷ xs) (suc i) = get_elem? xs i

-- A set of keys as a list; `contains` is `HashSet::contains`.
unfoldable pub contains : List ℕ → ℕ → Bool
contains [] a = false
contains (x ∷ xs) a = x == a || contains xs a

abbrev pub All {ℓ κ} : {A : Type ℓ} → (A → Type κ) → List A → Type κ
All P [] = Unit
All P (x ∷ xs) = P x × All P xs

-- No key occurs twice.
abbrev pub Distinct : List ℕ → Type 0
Distinct [] = Unit
Distinct (x ∷ xs) = (contains xs x ≡ false) × Distinct xs

module _ {ℓ} {A : Type ℓ} where
  pub Memᴰ-cons : {x y : A} {ys : List A} → Memᴰ x (y ∷ ys) → (x ≡ y) ⊎ Memᴰ x ys
  Memᴰ-cons (Memᴰ.head e) = inl e
  Memᴰ-cons (Memᴰ.tail m) = inr m

  pub any_mem : (p : A → Bool) (xs : List A) → any p xs ≡ true → (x : A) × Memᴰ x xs × (p x ≡ true)
  unfolding any
  any_mem p [] h = absurd (cc)
  any_mem p (x ∷ xs) h = elim (Bool-cases (p x)) [
    | inl e ↦ (x, Memᴰ.head refl, e)
    | inr e ↦ let (y, m, q) = any_mem p xs (rw e at h) in (y, Memᴰ.tail m, q)
  ]

  pub mem-any : (p : A → Bool) {x : A} {xs : List A} → Memᴰ x xs → p x ≡ true → any p xs ≡ true
  unfolding any
  mem-any p (Memᴰ.head e) h = rw (sym (ap p e) ∙ h)
  mem-any p (Memᴰ.tail m) h = ground (arith, mem-any p m h)

  pub find_mem :
      (p : A → Bool) (xs : List A) {x : A} → find p xs ≡ some x → Memᴰ x xs × (p x ≡ true)
  unfolding find
  find_mem p [] h = absurd (cc)
  find_mem p (y ∷ ys) {x} h = elim (Bool-cases (p y)) [
    | inl e ↦ let same : x ≡ y = ground arith in (Memᴰ.head same, ap p same ∙ e)
    | inr e ↦ let (m, q) = find_mem p ys (rw e at h) in (Memᴰ.tail m, q)
  ]

  pub mem-keep :
      (p : A → Bool) (xs : List A) {x : A} → Memᴰ x (keep p xs) → Memᴰ x xs × (p x ≡ true)
  unfolding keep
  mem-keep p [] m = elim m [ ]
  mem-keep p (y ∷ ys) m = elim (Bool-cases (p y)) [
    | inl e ↦ elim (Memᴰ-cons (rw e at m)) [
      | inl same ↦ (Memᴰ.head same, ap p same ∙ e)
      | inr n ↦ let (n', q) = mem-keep p ys n in (Memᴰ.tail n', q)
    ]
    | inr e ↦ let (n, q) = mem-keep p ys (rw e at m) in (Memᴰ.tail n, q)
  ]

pub contains_mem : (xs : List ℕ) (a : ℕ) → contains xs a ≡ true → Memᴰ a xs
unfolding contains
contains_mem [] a h = absurd (cc)
contains_mem (x ∷ xs) a h = elim (Bool-cases (x == a)) [
  | inl e ↦ Memᴰ.head (sym ((==_iff x a).0 e))
  | inr e ↦ Memᴰ.tail (contains_mem xs a (rw e at h))
]

pub All_mem {ℓ κ} : {A : Type ℓ} (P : A → Type κ) {x : A} {xs : List A} → Memᴰ x xs → All P xs → P x
All_mem P (Memᴰ.head e) h = subst P (sym e) h.0
All_mem P (Memᴰ.tail m) h = All_mem P m h.1
