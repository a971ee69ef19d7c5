-- ===== src/Consensus/SubDag/Rounds.antt =====
-- consensus/src/lib.rs: what `order_dag` returns, in which order.
use mathlib.Core.List.{Memᴰ}
use dag_bft_sigmod.Base.{
  ℕ, ◌≤◌, ◌≡◌, sym, ◌∙◌, ap, inl, inr, ◌↔◌, Bool, true, some, List, [], ◌∷◌, arith, All, keep,
  mem-keep, Bool-cases, leb, leb→le, Memᴰ-cons,
}
use dag_bft_sigmod.Primary.Messages.{Certificate, round_of}
use dag_bft_sigmod.Consensus.{State}
use dag_bft_sigmod.Consensus.SubDag.{insert_by_round, sort_by_round, in_depth, order_dag}
use dag_bft_sigmod.Consensus.SubDag.Termination.{flatten_total}
use dag_bft_sigmod.Consensus.SubDag.Closure.{Descendant, UniqueDigests, flatten_iff-Descendant}

-- No certificate stands behind one of a later round.
abbrev pub SortedByRound : List Certificate → Type 0
SortedByRound [] = Unit
SortedByRound (x ∷ xs) = All (λ y. round_of x ≤ round_of y) xs × SortedByRound xs

mem-keep_of :
    (p : Certificate → Bool) (xs : List Certificate) {x : Certificate}
    → Memᴰ x xs
    → p x ≡ true
    → Memᴰ x (keep p xs)
unfolding keep
mem-keep_of p [] m h = elim m [ ]
mem-keep_of p (y ∷ ys) (Memᴰ.head e) h = rw (sym (ap p e) ∙ h) (Memᴰ.head e)
mem-keep_of p (y ∷ ys) (Memᴰ.tail m) h = elim (Bool-cases (p y)) [
  | inl t ↦ rw t (Memᴰ.tail (mem-keep_of p ys m h))
  | inr f ↦ rw f (mem-keep_of p ys m h)
]

mem-insert :
    (x : Certificate) (ys : List Certificate) {z : Certificate}
    → Memᴰ z (insert_by_round x ys) ↔ Memᴰ z (x ∷ ys)
unfolding insert_by_round
mem-insert x [] = (λ m. m, λ m. m)
mem-insert x (y ∷ ys) {z} = elim (Bool-cases (leb (round_of x) (round_of y))) [
  | inl t ↦ rw t (λ m. m, λ m. m)
  | inr f ↦ rw f (
    λ m. elim (Memᴰ-cons m) [
      | inl e ↦ Memᴰ.tail (Memᴰ.head e)
      | inr n ↦ elim (Memᴰ-cons ((mem-insert x ys).0 n)) [
        | inl e ↦ Memᴰ.head e
        | inr o ↦ Memᴰ.tail (Memᴰ.tail o)
      ]
    ],
    λ m. elim (Memᴰ-cons m) [
      | inl e ↦ Memᴰ.tail ((mem-insert x ys).1 (Memᴰ.head e))
      | inr n ↦ elim (Memᴰ-cons n) [
        | inl e ↦ Memᴰ.head e
        | inr o ↦ Memᴰ.tail ((mem-insert x ys).1 (Memᴰ.tail o))
      ]
    ],
  )
]

mem-sort : (xs : List Certificate) {z : Certificate} → Memᴰ z (sort_by_round xs) ↔ Memᴰ z xs
unfolding sort_by_round
mem-sort [] = (λ m. m, λ m. m)
mem-sort (x ∷ xs) = (
  λ m. elim (Memᴰ-cons ((mem-insert x (sort_by_round xs)).0 m)) [
    | inl e ↦ Memᴰ.head e
    | inr n ↦ Memᴰ.tail ((mem-sort xs).0 n)
  ],
  λ m.
      (mem-insert x (sort_by_round xs)).1
        (elim (Memᴰ-cons m) [ inl e ↦ Memᴰ.head e | inr n ↦ Memᴰ.tail ((mem-sort xs).1 n) ]),
)

All-weaken :
    (a b : ℕ) (xs : List Certificate)
    → a ≤ b
    → All (λ y. b ≤ round_of y) xs
    → All (λ y. a ≤ round_of y) xs
All-weaken a b [] h hs = tt
All-weaken a b (x ∷ xs) h hs = (omega arith, All-weaken a b xs h hs.1)

All-insert :
    (a : ℕ) (x : Certificate) (ys : List Certificate)
    → a ≤ round_of x
    → All (λ y. a ≤ round_of y) ys
    → All (λ y. a ≤ round_of y) (insert_by_round x ys)
unfolding insert_by_round
All-insert a x [] h hs = (h, tt)
All-insert a x (y ∷ ys) h hs = elim (Bool-cases (leb (round_of x) (round_of y))) [
  | inl t ↦ rw t (h, hs)
  | inr f ↦ rw f (hs.0, All-insert a x ys h hs.1)
]

insert-SortedByRound :
    (x : Certificate) (ys : List Certificate)
    → SortedByRound ys
    → SortedByRound (insert_by_round x ys)
unfolding insert_by_round
insert-SortedByRound x [] h = (tt, tt)
insert-SortedByRound x (y ∷ ys) h = elim (Bool-cases (leb (round_of x) (round_of y))) [
  | inl t ↦
      let le = leb→le (round_of x) (round_of y) t in
      rw t ((le, All-weaken (round_of x) (round_of y) ys le h.0), h)
  | inr f ↦ rw f (All-insert (round_of y) x ys (ground arith) h.0, insert-SortedByRound x ys h.1)
]

sort-SortedByRound : (xs : List Certificate) → SortedByRound (sort_by_round xs)
unfolding sort_by_round
sort-SortedByRound [] = tt
sort-SortedByRound (x ∷ xs) = insert-SortedByRound x (sort_by_round xs) (sort-SortedByRound xs)

-- For every leader and state `order_dag` returns, ordered by round, exactly the certificates that
-- the leader reaches through parents in the dag without passing a last commit, and that lie within
-- the garbage collector's depth.
pub order_dag_exact :
    (gc_depth : ℕ) (root : Certificate) (s : State)
    → UniqueDigests s.dag
    → (out : List Certificate) × (order_dag gc_depth root s ≡ some out)
      × SortedByRound out
      × ((x : Certificate) → Memᴰ x out ↔ (Descendant s root x × (in_depth gc_depth s x ≡ true)))
unfolding order_dag
order_dag_exact gc_depth root s u =
    let (flat, h) = flatten_total s root in
    let kept = keep (in_depth gc_depth s) flat in
    (
      sort_by_round kept,
      rw (h, order_dag),
      sort-SortedByRound kept,
      λ x. (
        λ m.
            let (mx, p) = mem-keep (in_depth gc_depth s) flat ((mem-sort kept).0 m) in
            ((flatten_iff-Descendant s root _ flat x u h).0 mx, p),
        λ d. (mem-sort kept).1 (
            mem-keep_of (in_depth gc_depth s) flat
              ((flatten_iff-Descendant s root _ flat x u h).1 d.0) d.1),
      ),
    )
