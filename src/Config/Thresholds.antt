-- ===== src/Config/Thresholds.antt =====
-- config/src/lib.rs: what the two thresholds of a committee guarantee.
use dag_bft_sigmod.Base.{
  ℕ, ◌+◌, ◌*◌, ◌≤◌, ◌<◌, ◌≡◌, refl, inl, inr, true, false, ◌||◌, none, some, List, [], ◌∷◌, ◌++◌,
  arith, ==_iff, Option-cases, contains, find, Distinct, nat_eq,
}
use dag_bft_sigmod.Base.Maps.{Map}
use dag_bft_sigmod.Config.{
  PublicKey, Authority, Committee, stake_in, sum_stakes, total_votes, quorum_threshold,
  validity_threshold,
}

-- The stakes fit in a `u32` with room for the doubling in `quorum_threshold`.
abbrev pub Fits : Committee → Type 0
Fits c = 2 * sum_stakes c.authorities < 4294967296

-- The two thresholds overlap by exactly one unit of stake.
pub quorum-add-validity :
    (c : Committee)
    → Fits c
    → quorum_threshold c + validity_threshold c ≡ sum_stakes c.authorities + 1
unfolding quorum_threshold validity_threshold total_votes
quorum-add-validity c h = omega arith

pub quorum-pos : (c : Committee) → Fits c → 0 < quorum_threshold c
unfolding quorum_threshold total_votes
quorum-pos c h = omega arith

pub quorum_majority : (c : Committee) → Fits c → sum_stakes c.authorities < 2 * quorum_threshold c
unfolding quorum_threshold total_votes
quorum_majority c h = omega arith

-- The stake of a list of authorities, each counted as often as it is listed.
unfoldable pub stake_of : Map PublicKey Authority → List PublicKey → ℕ
stake_of m [] = 0
stake_of m (n ∷ ns) = stake_in m n + stake_of m ns

pub stake_of-append :
    (m : Map PublicKey Authority) (xs ys : List PublicKey)
    → stake_of m (xs ++ ys) ≡ stake_of m xs + stake_of m ys
unfolding stake_of
stake_of-append m [] ys = omega arith
stake_of-append m (x ∷ xs) ys = omega (arith, stake_of-append m xs ys)

stake_of_absent :
    (k : PublicKey) (a : Authority) (m : Map PublicKey Authority) (ns : List PublicKey)
    → contains ns k ≡ false
    → stake_of ((k, a) ∷ m) ns ≡ stake_of m ns
unfolding stake_of stake_in contains
stake_of_absent k a m [] h = refl
stake_of_absent k a m (n ∷ ns) h = ground (arith, stake_of_absent k a m ns)

stake_of-cons_le :
    (k : PublicKey) (a : Authority) (m : Map PublicKey Authority) (ns : List PublicKey)
    → Distinct ns
    → stake_of ((k, a) ∷ m) ns ≤ a.stake + stake_of m ns
unfolding stake_of stake_in
stake_of-cons_le k a m [] d = omega arith
stake_of-cons_le k a m (n ∷ ns) d =
    ground (arith, ==_iff k n, stake_of-cons_le k a m ns d.1, stake_of_absent k a m ns)

stake_of_nobody : (ns : List PublicKey) → stake_of [] ns ≡ 0
unfolding stake_of stake_in
stake_of_nobody [] = refl
stake_of_nobody (n ∷ ns) = omega (arith, stake_of_nobody ns)

-- Distinct authorities hold no more than the whole stake.
pub stake_of-le_sum :
    (m : Map PublicKey Authority) (ns : List PublicKey) → Distinct ns → stake_of m ns ≤ sum_stakes m
unfolding sum_stakes
stake_of-le_sum [] ns d = omega (arith, stake_of_nobody ns)
stake_of-le_sum ((k, a) ∷ m) ns d =
    omega (arith, stake_of-cons_le k a m ns d, stake_of-le_sum m ns d)

contains-append :
    (xs ys : List ℕ) (a : ℕ) → contains (xs ++ ys) a ≡ (contains xs a || contains ys a)
unfolding contains
contains-append [] ys a = refl
contains-append (x ∷ xs) ys a = ground (arith, contains-append xs ys a)

Distinct-append :
    (xs ys : List ℕ)
    → Distinct xs
    → Distinct ys
    → find (contains ys) xs ≡ none
    → Distinct (xs ++ ys)
unfolding find
Distinct-append [] ys dx dy h = dy
Distinct-append (x ∷ xs) ys dx dy h =
    ground (arith, contains-append xs ys x, Distinct-append xs ys dx.1 dy)

find_sound :
    (ys xs : List ℕ) (n : ℕ)
    → find (contains ys) xs ≡ some n
    → (contains xs n ≡ true) × (contains ys n ≡ true)
unfolding find contains
find_sound ys [] n h = ground arith
find_sound ys (x ∷ xs) n h = ground (arith, ==_iff x n, find_sound ys xs n)

-- Two sets of authorities whose stakes exceed the whole stake together share a member.
pub shared_authority :
    (c : Committee) (xs ys : List PublicKey)
    → Distinct xs
    → Distinct ys
    → sum_stakes c.authorities < stake_of c.authorities xs + stake_of c.authorities ys
    → (n : PublicKey) × (contains xs n ≡ true) × (contains ys n ≡ true)
shared_authority c xs ys dx dy h = elim (Option-cases (find (contains ys) xs)) [
  | inl e ↦ absurd (
      omega (
        arith,
        stake_of-append c.authorities xs ys,
        stake_of-le_sum c.authorities (xs ++ ys) (Distinct-append xs ys dx dy e),
      ))
  | inr (n, e) ↦ let both = find_sound ys xs n e in (n, both.0, both.1)
]

-- A quorum meets every set of authorities that reaches the validity threshold.
pub quorum-meets_validity :
    (c : Committee) (xs ys : List PublicKey)
    → Fits c
    → Distinct xs
    → Distinct ys
    → quorum_threshold c ≤ stake_of c.authorities xs
    → validity_threshold c ≤ stake_of c.authorities ys
    → (n : PublicKey) × (contains xs n ≡ true) × (contains ys n ≡ true)
quorum-meets_validity c xs ys f dx dy q v =
    shared_authority c xs ys dx dy (omega (arith, quorum-add-validity c f))
