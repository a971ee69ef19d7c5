-- ===== src/Consensus/SubDag/Termination.antt =====
-- consensus/src/lib.rs: the loop of `order_dag` ends, since each entry of the dag is pushed once.
use mathlib.Core.List.{Memᴰ}
use mathlib.Core.List.Memᴰ
use dag_bft_sigmod.Base.{
  ℕ, zero, suc, ◌+◌, ◌≤◌, ◌<◌, ◌≡◌, refl, false, ◌||◌, some, List, [], ◌∷◌, ◌++◌, arith,
  if◌then◌else◌, length, find_mem, contains, nat_eq, Bool-cases, Option-cases, ◌==◌, ==_iff,
  pred_u64, inl, inr, subst,
}
use dag_bft_sigmod.Base.Maps.{lookup, values}
use dag_bft_sigmod.Primary.Errors.{Digest, Round}
use dag_bft_sigmod.Primary.Messages.{Certificate, round_of}
use dag_bft_sigmod.Consensus.{State, Dag, Row}
use dag_bft_sigmod.Consensus.SubDag.{
  parent_entry, is_last_committed, push_parents, flatten, entries, enough_fuel,
}

-- How many entries have not been ordered.
fresh : List Digest → List (Digest × Certificate) → ℕ
fresh already [] = 0
fresh already ((d, x) ∷ es) =
    let rest = fresh already es in if contains already d then rest else suc rest

fresh_mono :
    (d : Digest) (already : List Digest) (es : List (Digest × Certificate))
    → fresh (d ∷ already) es ≤ fresh already es
unfolding fresh contains
fresh_mono d already [] = omega arith
fresh_mono d already ((j, x) ∷ es) = ground (arith, fresh_mono d already es)

fresh_drops :
    (d : Digest) (x : Certificate) (already : List Digest) (es : List (Digest × Certificate))
    → Memᴰ (d, x) es
    → contains already d ≡ false
    → fresh (d ∷ already) es < fresh already es
unfolding fresh contains
fresh_drops d x already [] m h = elim m [ ]
fresh_drops d x already ((j, y) ∷ es) (Memᴰ.head e) h =
    let same : d ≡ j = λ i. (e i).0 in ground (arith, fresh_mono d already es, ==_iff d j)
fresh_drops d x already ((j, y) ∷ es) (Memᴰ.tail m) h =
    ground (arith, fresh_drops d x already es m h)

fresh-le_length :
    (already : List Digest) (es : List (Digest × Certificate)) → fresh already es ≤ length es
unfolding fresh
fresh-le_length already [] = omega arith
fresh-le_length already ((d, x) ∷ es) = ground (arith, fresh-le_length already es)

lookup-entries :
    (dag : Dag) (r : Round) (row : Row) {e : Digest × Certificate}
    → lookup r dag ≡ some row
    → Memᴰ e (values row)
    → Memᴰ e (entries dag)
unfolding lookup entries
lookup-entries [] r row h m = absurd (cc)
lookup-entries ((q, row') ∷ rows) r row {e} h m = elim (Bool-cases (q == r)) [
  | inl t ↦
      let same : row ≡ row' = ground arith in
      Memᴰ.append_left (entries rows) (subst (λ w. Memᴰ e (values w)) same m)
  | inr f ↦ Memᴰ.append_right (values row') (lookup-entries rows r row (rw f at h) m)
]

pub parent_entry_mem :
    (dag : Dag) (x : Certificate) (p d : Digest) (y : Certificate)
    → parent_entry dag x p ≡ some (d, y)
    → Memᴰ (d, y) (entries dag)
unfolding parent_entry
parent_entry_mem dag x p d y h = elim (Option-cases (lookup (pred_u64 (round_of x)) dag)) [
  | inl e ↦ absurd (ground arith)
  | inr (row, e) ↦
      lookup-entries dag _ row e
        (find_mem (λ (t : Digest × Certificate). t.0 == p) (values row)
          (rw (e, parent_entry) at h)).0
]

push_parents_measure :
    (s : State) (x : Certificate) (ps : List Digest) (buffer : List Certificate)
    (already : List Digest)
    → fresh (push_parents s x ps buffer already).1 (entries s.dag)
        + length (push_parents s x ps buffer already).0
      ≤ fresh already (entries s.dag) + length buffer
unfolding push_parents
push_parents_measure s x [] buffer already = omega arith
push_parents_measure s x (p ∷ ps) buffer already = elim (Option-cases (parent_entry s.dag x p)) [
  | inl e ↦ rw (e, push_parents) (push_parents_measure s x ps buffer already)
  | inr ((d, y), e) ↦
      elim (Bool-cases (contains already d || is_last_committed s.last_committed y)) [
        | inl t ↦ rw (e, t, push_parents) (push_parents_measure s x ps buffer already)
        | inr f ↦
            rw (e, f, push_parents)
              (omega (
                arith,
                push_parents_measure s x ps (y ∷ buffer) (d ∷ already),
                fresh_drops d y already (entries s.dag) (parent_entry_mem s.dag x p d y e)
                    (ground arith),
              ))
      ]
]

flatten_total_from :
    (s : State) (fuel : ℕ) (buffer : List Certificate) (already : List Digest)
    (ordered : List Certificate)
    → fresh already (entries s.dag) + length buffer < fuel
    → (out : List Certificate) × (flatten s fuel buffer already ordered ≡ some out)
unfolding flatten
flatten_total_from s zero buffer already ordered h = absurd (omega arith)
flatten_total_from s (suc fuel) [] already ordered h = (ordered, refl)
flatten_total_from s (suc fuel) (x ∷ buffer) already ordered h =
    flatten_total_from s fuel (push_parents s x x.header.parents buffer already).0
      (push_parents s x x.header.parents buffer already).1 (ordered ++ x ∷ [])
      (omega (arith, push_parents_measure s x x.header.parents buffer already))

-- The fuel of `order_dag` is enough for every leader and every state.
pub flatten_total :
    (s : State) (root : Certificate)
    → (out : List Certificate) × (flatten s (enough_fuel s.dag) (root ∷ []) [] [] ≡ some out)
unfolding enough_fuel
flatten_total s root =
    flatten_total_from s _ (root ∷ []) [] [] (omega (arith, fresh-le_length [] (entries s.dag)))
