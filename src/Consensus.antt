-- ===== src/Consensus.antt =====
-- consensus/src/lib.rs: the DAG and the state of the committer, the leaders of the rounds, and the
-- step that a new certificate makes.
pub mod Linked
pub mod Leaders
pub mod SubDag
pub mod Commit
pub mod Elected
pub mod Purged
pub mod Cleanup
pub mod Examples
use dag_bft_sigmod.Base.{
  ℕ, suc, ◌+◌, ◌-◌, ◌%◌, max, Bool, true, false, not, ◌&&◌, ◌||◌, Option, none, some, List, [], ◌∷◌,
  if◌then◌else◌, leb, ◌==◌, u64, is_empty, get_elem?, nat_eq,
}
use dag_bft_sigmod.Base.Maps.{Map, keys, values, lookup, insert, retain, get_or}
use dag_bft_sigmod.Config.{PublicKey, Committee, size}
use dag_bft_sigmod.Primary.Errors.{Digest, Round}
use dag_bft_sigmod.Primary.Messages.{Crypto, Certificate, round_of, origin, certificate_digest}

abbrev pub Row : Type 0
Row = Map PublicKey (Digest × Certificate)

abbrev pub Dag : Type 0
Dag = Map Round Row

pub record State : Type 0 where
  pub last_committed_round : Round
  pub last_committed : Map PublicKey Round
  pub dag : Dag

-- `genesis.into_iter().map(..).collect::<HashMap<_, _>>()`.
unfoldable pub collect_row : Crypto → List Certificate → Row → Row
collect_row crypto [] row = row
collect_row crypto (x ∷ xs) row =
    collect_row crypto xs (insert (origin x) (certificate_digest crypto x, x) row)

unfoldable pub rounds_of_row : Row → Map PublicKey Round
rounds_of_row [] = []
rounds_of_row ((n, (d, x)) ∷ row) = (n, round_of x) ∷ rounds_of_row row

unfoldable pub new_state : Crypto → List Certificate → State
unfolding collect_row rounds_of_row
new_state crypto genesis =
    let row = collect_row crypto genesis [] in
    record { last_committed_round = 0; last_committed = rounds_of_row row; dag = (0, row) ∷ [] }

-- `entry(..).and_modify(|r| *r = max(*r, round)).or_insert_with(|| round)`.
unfoldable pub commit_round : PublicKey → Round → Map PublicKey Round → Map PublicKey Round
commit_round name round m = elim (lookup name m) [
  | none ↦ insert name round m
  | some r ↦ insert name (max r round) m
]

unfoldable pub max_round : List Round → Round
max_round [] = 0
max_round (r ∷ rs) = max r (max_round rs)

-- One authority's turn in the clean-up: its entries below its committed round go, then the rows
-- that are empty or out of the garbage collector's depth.
unfoldable pub purge : ℕ → Round → PublicKey → Round → Dag → Dag
purge gc_depth last_committed_round name round [] = []
purge gc_depth last_committed_round name round ((r, authorities) ∷ rows) =
    let rest = purge gc_depth last_committed_round name round rows in
    let kept = retain (λ n _. not (n == name) || leb round r) authorities in
    if not (is_empty kept) && leb last_committed_round (u64 (r + gc_depth))
    then (r, kept) ∷ rest
    else rest

unfoldable pub purge_all : ℕ → Round → Map PublicKey Round → Dag → Dag
unfolding purge
purge_all gc_depth last_committed_round [] dag = dag
purge_all gc_depth last_committed_round ((name, round) ∷ m) dag =
    purge_all gc_depth last_committed_round m (purge gc_depth last_committed_round name round dag)

unfoldable pub update : State → Certificate → ℕ → State
unfolding commit_round max_round purge_all
update s x gc_depth =
    let committed = commit_round (origin x) (round_of x) s.last_committed in
    let top = max_round (values committed) in
    record {
      last_committed_round = top;
      last_committed = committed;
      dag = purge_all gc_depth top committed s.dag;
    }

-- `keys.sort()`.
unfoldable pub insert_key : ℕ → List ℕ → List ℕ
insert_key k [] = k ∷ []
insert_key k (j ∷ js) = if leb k j then k ∷ j ∷ js else j ∷ insert_key k js

unfoldable pub sort_keys : List ℕ → List ℕ
unfolding insert_key
sort_keys [] = []
sort_keys (k ∷ ks) = insert_key k (sort_keys ks)

-- The leader's entry of the round, by round-robin. (An empty committee would be a panic.)
unfoldable pub leader : Committee → Round → Dag → Option (Digest × Certificate)
unfolding sort_keys get_elem? lookup
leader c round dag = elim (get_elem? (sort_keys (keys c.authorities)) (round % size c)) [
  | none ↦ none
  | some name ↦ elim (lookup round dag) [ none ↦ none | some row ↦ lookup name row ]
]
