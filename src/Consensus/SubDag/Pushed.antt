-- ===== src/Consensus/SubDag/Pushed.antt =====
-- consensus/src/lib.rs: what the loop over the parents leaves on the stack.
use mathlib.Core.List.{Memᴰ}
use mathlib.Core.List.Memᴰ
use dag_bft_sigmod.Base.{
  ◌≡◌, refl, sym, ap, ◌⊎◌, inl, inr, true, ◌||◌, some, List, [], ◌∷◌, arith, contains, nat_eq,
  Bool-cases, Option-cases, ◌==◌, ==_iff, subst,
}
use dag_bft_sigmod.Primary.Errors.{Digest}
use dag_bft_sigmod.Primary.Messages.{Certificate}
use dag_bft_sigmod.Consensus.{State}
use dag_bft_sigmod.Consensus.SubDag.{parent_entry, is_last_committed, push_parents, entries}
use dag_bft_sigmod.Consensus.SubDag.Termination.{parent_entry_mem}

-- The parent is its author's last commit, or its digest is ordered.
abbrev pub IsHandled : State → Certificate → List Digest → Digest → Type 0
IsHandled s x already p =
    (d : Digest) (y : Certificate)
    → parent_entry s.dag x p ≡ some (d, y)
    → (is_last_committed s.last_committed y ≡ true) ⊎ (contains already d ≡ true)

-- An ordered digest has its entry in the output or on the stack.
abbrev pub IsKnown : State → List Certificate → List Certificate → List Digest → Type 0
IsKnown s ordered buffer already =
    (d : Digest)
    → contains already d ≡ true
    → (y : Certificate) × Memᴰ (d, y) (entries s.dag) × (Memᴰ y ordered ⊎ Memᴰ y buffer)

abbrev pub IncludedIn : List Digest → List Digest → Type 0
IncludedIn xs ys = (d : Digest) → contains xs d ≡ true → contains ys d ≡ true

-- What a round of pushes leaves: more digests, more on the stack, all parents handled.
pub record Pushed (s : State) (x : Certificate) (ps : List Digest)
    (ordered buffer : List Certificate) (already : List Digest) (buffer' : List Certificate)
    (already' : List Digest) : Type 0 where
  pub grows : IncludedIn already already'
  pub stays : (y : Certificate) → Memᴰ y buffer → Memᴰ y buffer'
  pub known : IsKnown s ordered buffer' already'
  pub handled : (p : Digest) → Memᴰ p ps → IsHandled s x already' p

pub IsHandled-head :
    (s : State) (x : Certificate) (p d : Digest) (y : Certificate) (already already' : List Digest)
    → parent_entry s.dag x p ≡ some (d, y)
    → (is_last_committed s.last_committed y ≡ true) ⊎ (contains already' d ≡ true)
    → IsHandled s x already' p
IsHandled-head s x p d y already already' e h d' y' e' = ground arith

pub IsKnown-push :
    (s : State) (ordered buffer : List Certificate) (already : List Digest) (d : Digest)
    (y : Certificate)
    → Memᴰ (d, y) (entries s.dag)
    → IsKnown s ordered buffer already
    → IsKnown s ordered (y ∷ buffer) (d ∷ already)
unfolding contains
IsKnown-push s ordered buffer already d y m k j h = elim (Bool-cases (d == j)) [
  | inl t ↦
      let same : j ≡ d = sym ((==_iff d j).0 t) in
      (y, Memᴰ.cast (ap (λ i. (i, y)) same) m, inr (Memᴰ.head refl))
  | inr f ↦
      let (z, mz, place) = k j (rw f at h) in
      (z, mz, elim place [ inl o ↦ inl o | inr b ↦ inr (Memᴰ.tail b) ])
]

pub Pushed-cons :
    (s : State) (x : Certificate) (p : Digest) (ps : List Digest)
    (ordered buffer : List Certificate) (already : List Digest) (buffer' : List Certificate)
    (already' : List Digest)
    → IsHandled s x already' p
    → Pushed s x ps ordered buffer already buffer' already'
    → Pushed s x (p ∷ ps) ordered buffer already buffer' already'
Pushed-cons s x p ps ordered buffer already buffer' already' h r = record {
  grows = r.grows;
  stays = r.stays;
  known = r.known;
  handled = λ q m. elim (Memᴰ.cases_cons m) [
    | inl same ↦ subst (IsHandled s x already') (sym same) h
    | inr n ↦ r.handled q n
  ];
}

pub push_parents-Pushed :
    (s : State) (x : Certificate) (ps : List Digest) (ordered buffer : List Certificate)
    (already : List Digest)
    → IsKnown s ordered buffer already
    → Pushed s x ps ordered buffer already
        (push_parents s x ps buffer already).0
        (push_parents s x ps buffer already).1
unfolding push_parents contains
push_parents-Pushed s x [] ordered buffer already k = record {
  grows = λ d h. h;
  stays = λ y m. m;
  known = k;
  handled = λ p m. elim m [ ];
}
push_parents-Pushed s x (p ∷ ps) ordered buffer already k =
    elim (Option-cases (parent_entry s.dag x p)) [
      | inl e ↦
          let r = push_parents-Pushed s x ps ordered buffer already k in
          rw (e, push_parents)
            (Pushed-cons s x p ps ordered buffer already _ _ (λ d y h. absurd (cc)) r)
      | inr ((d, y), e) ↦
          elim (Bool-cases (contains already d || is_last_committed s.last_committed y)) [
            | inl t ↦
                let r = push_parents-Pushed s x ps ordered buffer already k in
                rw (e, t, push_parents)
                  (Pushed-cons s x p ps ordered buffer already _ _
                    (IsHandled-head s x p d y already _ e (elim (Bool-cases (contains already d)) [
                      | inl old ↦ inr (r.grows d old)
                      | inr new ↦ inl (ground arith)
                    ]))
                    r)
            | inr f ↦
                let r = push_parents-Pushed s x ps ordered (y ∷ buffer) (d ∷ already) (
                  IsKnown-push s ordered buffer already d y (parent_entry_mem s.dag x p d y e) k) in
                rw (e, f, push_parents)
                  (Pushed-cons s x p ps ordered buffer already _ _
                    (IsHandled-head s x p d y already _ e
                      (inr (r.grows d (ground (arith, ==_iff d d)))))
                    (record {
                      grows = λ j h. r.grows j (ground arith);
                      stays = λ z m. r.stays z (Memᴰ.tail m);
                      known = r.known;
                      handled = r.handled;
                    }))
          ]
    ]
