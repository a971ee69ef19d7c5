-- ===== src/Consensus/Linked/Paths.antt =====
-- consensus/src/lib.rs: `linked` finds exactly the paths of the dag.
use mathlib.Core.List.{Memᴰ}
use mathlib.Core.List.Memᴰ
use dag_bft_sigmod.Base.{
  ℕ, zero, suc, ◌+◌, ◌-◌, ◌≡◌, refl, sym, ◌∙◌, ap, inl, inr, ◌↔◌, Bool, true, some, List, [], ◌∷◌,
  arith, any, contains, nat_eq, Bool-cases, Option-cases, subst, any_mem, mem-any, Memᴰ-cons,
}
use dag_bft_sigmod.Base.Maps.{lookup, values}
use dag_bft_sigmod.Primary.Errors.{Digest, Round}
use dag_bft_sigmod.Primary.Messages.{Certificate, round_of, same_certificate}
use dag_bft_sigmod.Consensus.{Dag, Row}
use dag_bft_sigmod.Consensus.Linked.{parents_in, walk, linked}

-- A path of `n` parent links down to the row of round `base`.
pub data Descends (dag : Dag) (base : Round) : ℕ → Certificate → Certificate → Type 0 where
  stop : {x : Certificate} → Descends dag base zero x x
  down :
      {n : ℕ} {x y z : Certificate} (row : Row) (digest : Digest)
      → lookup (base + n) dag ≡ some row
      → Memᴰ (digest, y) (values row)
      → contains x.header.parents digest ≡ true
      → Descends dag base n y z
      → Descends dag base (suc n) x z

-- The certificate is reached from one of the list.
abbrev pub Reached : Dag → Round → ℕ → List Certificate → Certificate → Type 0
Reached dag base n xs z = (x : Certificate) × Memᴰ x xs × Descends dag base n x z

parents_in_mem :
    (row : List (Digest × Certificate)) (xs : List Certificate) {z : Certificate}
    → Memᴰ z (parents_in row xs)
    → (x : Certificate) × (d : Digest) × Memᴰ x xs
      × Memᴰ (d, z) row
      × (contains x.header.parents d ≡ true)
unfolding parents_in
parents_in_mem [] xs m = elim m [ ]
parents_in_mem ((d, y) ∷ row) xs {z} m =
    elim (Bool-cases (any (λ (x : Certificate). contains x.header.parents d) xs)) [
      | inl e ↦ elim (Memᴰ-cons (rw e at m)) [
        | inl same ↦
            let (x, mx, p) = any_mem (λ (x : Certificate). contains x.header.parents d) xs e in
            (x, d, mx, Memᴰ.head (ap (λ w. (d, w)) same), p)
        | inr n ↦ let (x, d', mx, md, p) = parents_in_mem row xs n in (x, d', mx, Memᴰ.tail md, p)
      ]
      | inr e ↦
          let (x, d', mx, md, p) = parents_in_mem row xs (rw e at m) in (x, d', mx, Memᴰ.tail md, p)
    ]

mem-parents_in :
    {xs : List Certificate} {x z : Certificate} {d : Digest} {row : List (Digest × Certificate)}
    → Memᴰ x xs
    → Memᴰ (d, z) row
    → contains x.header.parents d ≡ true
    → Memᴰ z (parents_in row xs)
unfolding parents_in
mem-parents_in {row = []} mx m p = elim m [ ]
mem-parents_in {x} {row = (d', y) ∷ row} mx (Memᴰ.head e) p =
    rw
      (mem-any (λ (w : Certificate). contains w.header.parents d') mx
        (ap (contains x.header.parents) (ap (λ t. t.0) (sym e)) ∙ p))
      (Memᴰ.head (ap (λ t. t.1) e))
mem-parents_in {xs} {row = (d', y) ∷ row} mx (Memᴰ.tail m) p =
    elim (Bool-cases (any (λ (w : Certificate). contains w.header.parents d') xs)) [
      | inl e ↦ rw e (Memᴰ.tail (mem-parents_in mx m p))
      | inr e ↦ rw e (mem-parents_in mx m p)
    ]

walk_sound :
    (dag : Dag) (n : ℕ) (base : Round) (xs zs : List Certificate) {z : Certificate}
    → walk dag n base xs ≡ some zs
    → Memᴰ z zs
    → Reached dag base n xs z
unfolding walk
walk_sound dag zero base xs zs {z} h m = let same : zs ≡ xs = cc in (z, subst (Memᴰ z) same m, stop)
walk_sound dag (suc n) base xs zs {z} h m = elim (Option-cases (lookup (base + n) dag)) [
  | inl e ↦ absurd (cc)
  | inr (row, e) ↦
      let (y, my, path) =
        walk_sound dag n base (parents_in (values row) xs) zs (rw (e, walk) at h) m in
      let (x, d, mx, md, p) = parents_in_mem (values row) xs my in (x, mx, down row d e md p path)
]

walk_complete :
    (dag : Dag) (n : ℕ) (base : Round) (xs zs : List Certificate) {x z : Certificate}
    → walk dag n base xs ≡ some zs
    → Memᴰ x xs
    → Descends dag base n x z
    → Memᴰ z zs
unfolding walk
walk_complete dag zero base xs zs {x} h m stop = subst (Memᴰ x) (ground arith) m
walk_complete dag (suc n) base xs zs h m (down row d e md p path) =
    walk_complete dag n base (parents_in (values row) xs) zs (rw (e, walk) at h)
      (mem-parents_in m md p) path

-- Where `linked` does not panic it answers whether a path of parent links leads from the leader, one
-- row at a time, to a certificate that equals the previous leader.
pub linked_iff_path :
    (dag : Dag) (leader prev_leader : Certificate) (b : Bool)
    → linked leader prev_leader dag ≡ some b
    → (b ≡ true) ↔ (
        (z : Certificate) × Descends dag
          (round_of prev_leader)
          (round_of leader - round_of prev_leader)
          leader
          z
        × (same_certificate z prev_leader ≡ true))
unfolding linked
linked_iff_path dag leader prev_leader b h =
    elim (Option-cases (walk dag n (round_of prev_leader) (leader ∷ []))) [
      | inl e ↦ absurd (cc)
      | inr (zs, e) ↦
          let answer : any test zs ≡ b = ground arith in
          (
            λ t.
                let (z, mz, same) = any_mem test zs (answer ∙ t) in
                let (x, mx, path) = walk_sound dag n (round_of prev_leader) (leader ∷ []) zs e mz in
                (
                  z,
                  subst (λ w. Descends dag (round_of prev_leader) n w z) (Memᴰ.eq_of_singleton mx)
                      path,
                  same,
                ),
            λ (z, path, same).
                sym answer
                ∙ mem-any test
                    (walk_complete dag n (round_of prev_leader) (leader ∷ []) zs e (Memᴰ.head refl)
                      path)
                    same,
          )
    ]
  where
    n : ℕ
    n = round_of leader - round_of prev_leader

    test : Certificate → Bool
    test x = same_certificate x prev_leader
