-- ===== src/Consensus/SubDag.antt =====
-- consensus/src/lib.rs: `order_dag`, the depth-first flattening of a leader's sub-dag.
pub mod Termination
pub mod Pushed
pub mod Closure
pub mod Rounds
use dag_bft_sigmod.Base.{
  ℕ, zero, suc, ◌+◌, Bool, true, false, ◌||◌, Option, none, some, List, [], ◌∷◌, ◌++◌,
  if◌then◌else◌, leb, ◌==◌, u64, pred_u64, length, keep, find, contains, nat_eq,
}
use dag_bft_sigmod.Base.Maps.{Map, lookup, values}
use dag_bft_sigmod.Config.{PublicKey}
use dag_bft_sigmod.Primary.Errors.{Digest, Round}
use dag_bft_sigmod.Primary.Messages.{Certificate, round_of, origin}
use dag_bft_sigmod.Consensus.{State, Dag}

-- The entry of the row below with the digest of the parent.
unfoldable pub parent_entry : Dag → Certificate → Digest → Option (Digest × Certificate)
unfolding lookup find
parent_entry dag x parent = elim (lookup (pred_u64 (round_of x)) dag) [
  | none ↦ none
  | some row ↦ find (λ entry. entry.0 == parent) (values row)
]

-- The certificate is the last that its author committed.
unfoldable pub is_last_committed : Map PublicKey Round → Certificate → Bool
unfolding lookup
is_last_committed committed x = elim (lookup (origin x) committed) [
  | none ↦ false
  | some r ↦ r == round_of x
]

-- The loop over the parents: the stack, its top first, and the digests already ordered.
unfoldable pub push_parents :
    State
    → Certificate
    → List Digest
    → List Certificate
    → List Digest
    → List Certificate × List Digest
unfolding parent_entry is_last_committed contains
push_parents s x [] buffer already = (buffer, already)
push_parents s x (parent ∷ parents) buffer already = elim (parent_entry s.dag x parent) [
  | none ↦ push_parents s x parents buffer already
  | some (digest, y) ↦ elim (contains already digest || is_last_committed s.last_committed y) [
    | true ↦ push_parents s x parents buffer already
    | false ↦ push_parents s x parents (y ∷ buffer) (digest ∷ already)
  ]
]

-- The `while` loop on fuel; `none` is fuel that ran out.
unfoldable pub flatten :
    State → ℕ → List Certificate → List Digest → List Certificate → Option (List Certificate)
unfolding push_parents
flatten s zero buffer already ordered = none
flatten s (suc fuel) [] already ordered = some ordered
flatten s (suc fuel) (x ∷ buffer) already ordered =
    let (buffer', already') = push_parents s x x.header.parents buffer already in
    flatten s fuel buffer' already' (ordered ++ x ∷ [])

-- The entries of the dag, in any order.
unfoldable pub entries : Dag → List (Digest × Certificate)
entries [] = []
entries ((r, row) ∷ rows) = values row ++ entries rows

-- Every entry is pushed once at most.
unfoldable pub enough_fuel : Dag → ℕ
unfolding entries
enough_fuel dag = length (entries dag) + 2

-- `sort_by_key(|x| x.round())` is stable.
unfoldable pub insert_by_round : Certificate → List Certificate → List Certificate
insert_by_round x [] = x ∷ []
insert_by_round x (y ∷ ys) =
    if leb (round_of x) (round_of y) then x ∷ y ∷ ys else y ∷ insert_by_round x ys

unfoldable pub sort_by_round : List Certificate → List Certificate
unfolding insert_by_round
sort_by_round [] = []
sort_by_round (x ∷ xs) = insert_by_round x (sort_by_round xs)

abbrev pub in_depth : ℕ → State → Certificate → Bool
in_depth gc_depth s x = leb s.last_committed_round (u64 (round_of x + gc_depth))

unfoldable pub order_dag : ℕ → Certificate → State → Option (List Certificate)
unfolding flatten enough_fuel sort_by_round keep
order_dag gc_depth root s = elim (flatten s (enough_fuel s.dag) (root ∷ []) [] []) [
  | none ↦ none
  | some ordered ↦ some (sort_by_round (keep (in_depth gc_depth s) ordered))
]
