-- ===== src/Consensus/SubDag/Closure.antt =====
-- consensus/src/lib.rs: the flattened sub-dag holds the leader's uncommitted ancestors, no more and
-- no less.
use mathlib.Core.List.{Memᴰ}
use mathlib.Core.List.Memᴰ
use dag_bft_sigmod.Base.{
  ℕ, zero, suc, ◌≡◌, refl, sym, inl, inr, ◌↔◌, true, false, ◌||◌, some, List, [], ◌∷◌, ◌++◌, arith,
  contains, nat_eq, Bool-cases, Option-cases, subst,
}
use dag_bft_sigmod.Primary.Errors.{Digest}
use dag_bft_sigmod.Primary.Messages.{Certificate}
use dag_bft_sigmod.Consensus.{State, Dag}
use dag_bft_sigmod.Consensus.SubDag.{
  parent_entry, is_last_committed, push_parents, flatten, entries,
}
use dag_bft_sigmod.Consensus.SubDag.Termination.{parent_entry_mem}
use dag_bft_sigmod.Consensus.SubDag.Pushed.{IsHandled, IsKnown, IncludedIn, push_parents-Pushed}

-- Reached from the leader through parents in the dag that are not their author's last commit.
pub data Descendant (s : State) (root : Certificate) : Certificate → Type 0 where
  self : Descendant s root root
  parent :
      {x : Certificate} (p d : Digest) (y : Certificate)
      → Descendant s root x
      → Memᴰ p x.header.parents
      → parent_entry s.dag x p ≡ some (d, y)
      → is_last_committed s.last_committed y ≡ false
      → Descendant s root y

-- A digest stands for one certificate.
abbrev pub UniqueDigests : Dag → Type 0
UniqueDigests dag =
    (d : Digest) (x y : Certificate) → Memᴰ (d, x) (entries dag) → Memᴰ (d, y) (entries dag) → x ≡ y

abbrev AllDescend : State → Certificate → List Certificate → Type 0
AllDescend s root xs = (y : Certificate) → Memᴰ y xs → Descendant s root y

AllDescend-cons :
    (s : State) (root x : Certificate) (xs : List Certificate)
    → Descendant s root x
    → AllDescend s root xs
    → AllDescend s root (x ∷ xs)
AllDescend-cons s root x xs h hs y (Memᴰ.head e) = subst (Descendant s root) (sym e) h
AllDescend-cons s root x xs h hs y (Memᴰ.tail m) = hs y m

push_parents_sound :
    (s : State) (root x : Certificate) (ps : List Digest) (buffer : List Certificate)
    (already : List Digest)
    → Descendant s root x
    → ((p : Digest) → Memᴰ p ps → Memᴰ p x.header.parents)
    → AllDescend s root buffer
    → AllDescend s root (push_parents s x ps buffer already).0
unfolding push_parents
push_parents_sound s root x [] buffer already dx sub hb = hb
push_parents_sound s root x (p ∷ ps) buffer already dx sub hb =
    let sub' : (q : Digest) → Memᴰ q ps → Memᴰ q x.header.parents = λ q m. sub q (Memᴰ.tail m) in
    elim (Option-cases (parent_entry s.dag x p)) [
      | inl e ↦ rw (e, push_parents) (push_parents_sound s root x ps buffer already dx sub' hb)
      | inr ((d, y), e) ↦
          elim (Bool-cases (contains already d || is_last_committed s.last_committed y)) [
            | inl t ↦
                rw (e, t, push_parents) (push_parents_sound s root x ps buffer already dx sub' hb)
            | inr f ↦
                let dy = parent p d y dx (sub p (Memᴰ.head refl)) e (ground arith) in
                rw (e, f, push_parents)
                  (push_parents_sound s root x ps (y ∷ buffer) (d ∷ already) dx sub'
                    (AllDescend-cons s root y buffer dy hb))
          ]
    ]

flatten_sound :
    (s : State) (root : Certificate) (fuel : ℕ) (buffer : List Certificate) (already : List Digest)
    (ordered out : List Certificate)
    → flatten s fuel buffer already ordered ≡ some out
    → AllDescend s root buffer
    → AllDescend s root ordered
    → AllDescend s root out
unfolding flatten
flatten_sound s root zero buffer already ordered out h hb ho = absurd (cc)
flatten_sound s root (suc fuel) [] already ordered out h hb ho =
    let same : ordered ≡ out = ground arith in subst (AllDescend s root) same ho
flatten_sound s root (suc fuel) (x ∷ buffer) already ordered out h hb ho =
    let dx = hb x (Memᴰ.head refl) in
    flatten_sound s root fuel (push_parents s x x.header.parents buffer already).0
      (push_parents s x x.header.parents buffer already).1 (ordered ++ x ∷ []) out h
      (push_parents_sound s root x x.header.parents buffer already dx (λ p m. m)
        (λ y m. hb y (Memᴰ.tail m)))
      (λ y m. elim (Memᴰ.append_cases ordered m) [
        | inl o ↦ ho y o
        | inr l ↦ subst (Descendant s root) (sym (Memᴰ.eq_of_singleton l)) dx
      ])

-- The loop's result is closed: what was on the stack is in it, and so are the handled parents.
record IsClosed (s : State) (ordered buffer out : List Certificate) (already : List Digest)
    : Type 0 where
  had : (y : Certificate) → Memᴰ y ordered → Memᴰ y out
  popped : (y : Certificate) → Memᴰ y buffer → Memᴰ y out
  known :
      (d : Digest)
      → contains already d ≡ true
      → (y : Certificate) × Memᴰ (d, y) (entries s.dag) × Memᴰ y out
  handled :
      (x : Certificate)
      → Memᴰ x out
      → (p : Digest) → Memᴰ p x.header.parents
      → IsHandled s x already p

abbrev AllHandled : State → List Certificate → List Digest → Type 0
AllHandled s xs already =
    (x : Certificate) → Memᴰ x xs → (p : Digest) → Memᴰ p x.header.parents → IsHandled s x already p

AllHandled-append :
    (s : State) (x : Certificate) (ordered : List Certificate) (already already' : List Digest)
    → IncludedIn already already'
    → AllHandled s ordered already
    → ((p : Digest) → Memᴰ p x.header.parents → IsHandled s x already' p)
    → AllHandled s (ordered ++ x ∷ []) already'
AllHandled-append s x ordered already already' sub old new y m =
    elim (Memᴰ.append_cases ordered m) [
      | inl o ↦ λ p mp d z e. elim (old y o p mp d z e) [ inl a ↦ inl a | inr b ↦ inr (sub d b) ]
      | inr l ↦
          subst (λ w. (p : Digest) → Memᴰ p w.header.parents → IsHandled s w already' p)
            (sym (Memᴰ.eq_of_singleton l)) new
    ]

flatten_complete :
    (s : State) (fuel : ℕ) (buffer : List Certificate) (already : List Digest)
    (ordered out : List Certificate)
    → flatten s fuel buffer already ordered ≡ some out
    → IsKnown s ordered buffer already
    → AllHandled s ordered already
    → (last : List Digest) × IsClosed s ordered buffer out last
unfolding flatten
flatten_complete s zero buffer already ordered out h k a = absurd (cc)
flatten_complete s (suc fuel) [] already ordered out h k a =
    let same : ordered ≡ out = ground arith in
    (
      already,
      subst (λ o. IsClosed s ordered [] o already) same
          (record {
            had = λ y m. m;
            popped = λ y m. elim m [ ];
            known = λ d c.
                let (y, my, place) = k d c in
                (y, my, elim place [ inl o ↦ o | inr b ↦ elim b [ ] ]);
            handled = a;
          }),
    )
flatten_complete s (suc fuel) (x ∷ buffer) already ordered out h k a =
    let k' : IsKnown s (ordered ++ x ∷ []) buffer already = λ d c.
      let (y, my, place) = k d c in
      (
        y,
        my,
        elim place [
          | inl o ↦ inl (Memᴰ.append_left (x ∷ []) o)
          | inr b ↦ elim (Memᴰ.cases_cons b) [
            | inl e ↦ inl (Memᴰ.append_right ordered (Memᴰ.head e))
            | inr t ↦ inr t
          ]
        ],
      ) in
    let r = push_parents-Pushed s x x.header.parents (ordered ++ x ∷ []) buffer already k' in
    let (last, c) =
      flatten_complete s fuel (push_parents s x x.header.parents buffer already).0
        (push_parents s x x.header.parents buffer already).1 (ordered ++ x ∷ []) out h r.known
        (AllHandled-append s x ordered already _ r.grows a r.handled) in
    (
      last,
      record {
        had = λ y m. c.had y (Memᴰ.append_left (x ∷ []) m);
        popped = λ y m. elim (Memᴰ.cases_cons m) [
          | inl e ↦ c.had y (Memᴰ.append_right ordered (Memᴰ.head e))
          | inr t ↦ c.popped y (r.stays y t)
        ];
        known = c.known;
        handled = c.handled;
      },
    )

Descendant-closed :
    (s : State) (root x : Certificate) (out : List Certificate) (last : List Digest)
    → UniqueDigests s.dag
    → IsClosed s [] (root ∷ []) out last
    → Descendant s root x
    → Memᴰ x out
Descendant-closed s root x out last u c self = c.popped x (Memᴰ.head refl)
Descendant-closed s root x out last u c (parent {x = w} p d y dw mp e new) =
    elim (c.handled w (Descendant-closed s root w out last u c dw) p mp d y e) [
      | inl old ↦ absurd (cc)
      | inr in_last ↦
          let (z, mz, oz) = c.known d in_last in
          Memᴰ.cast (u d y z (parent_entry_mem s.dag w p d y e) mz) oz
    ]

-- The flattened sub-dag of a leader holds exactly the certificates that the leader reaches through
-- parents in the dag, without passing one that is its author's last commit.
pub flatten_iff-Descendant :
    (s : State) (root : Certificate) (fuel : ℕ) (out : List Certificate) (x : Certificate)
    → UniqueDigests s.dag
    → flatten s fuel (root ∷ []) [] [] ≡ some out
    → Memᴰ x out ↔ Descendant s root x
unfolding contains
flatten_iff-Descendant s root fuel out x u h = (
  flatten_sound s root fuel (root ∷ []) [] [] out h
      (λ y m. subst (Descendant s root) (sym (Memᴰ.eq_of_singleton m)) self) (λ y m. elim m [ ]) x,
  λ d.
      let (last, c) =
        flatten_complete s fuel (root ∷ []) [] [] out h (λ j e. absurd (cc)) (λ y m. elim m [ ]) in
      Descendant-closed s root x out last u c d,
)
