-- ===== src/Consensus/Commit.antt =====
-- consensus/src/lib.rs: what `Consensus::run` does with one new certificate.
pub mod Reason
pub mod Progress
pub mod Examples
use dag_bft_sigmod.Base.{
  ℕ, ◌+◌, ◌-◌, ◌%◌, not, ◌||◌, Option, none, some, List, [], ◌∷◌, ◌++◌, if◌then◌else◌, ltb, leb,
  ◌==◌, u32, pred_u64, contains, nat_eq,
}
use mathlib.Core.List.{reverse}
use dag_bft_sigmod.Base.Maps.{values, lookup, insert, get_or}
use dag_bft_sigmod.Config.{Committee, Stake, stake, validity_threshold}
use dag_bft_sigmod.Primary.Errors.{Digest, Round}
use dag_bft_sigmod.Primary.Messages.{Crypto, Certificate, round_of, origin, certificate_digest}
use dag_bft_sigmod.Consensus.{State, Dag, update, leader}
use dag_bft_sigmod.Consensus.Leaders.{order_leaders}
use dag_bft_sigmod.Consensus.SubDag.{order_dag}

unfoldable pub insert_certificate : Crypto → Certificate → Dag → Dag
unfolding lookup insert
insert_certificate crypto x dag =
    let row = get_or [] (lookup (round_of x) dag) in
    insert (round_of x) (insert (origin x) (certificate_digest crypto x, x) row) dag

-- The stake of the certificates of a row that have the digest among their parents; a `u32` sum.
unfoldable pub support : Committee → Digest → List (Digest × Certificate) → Stake
unfolding contains
support c digest [] = 0
support c digest ((_, x) ∷ row) =
    let rest = support c digest row in
    if contains x.header.parents digest then u32 (stake c (origin x) + rest) else rest

-- One leader's sub-dag: the state is updated with each certificate.
unfoldable pub commit_all : ℕ → State → List Certificate → State
commit_all gc_depth s [] = s
commit_all gc_depth s (x ∷ xs) = commit_all gc_depth (update s x gc_depth) xs

-- The leaders, oldest first.
unfoldable pub commit_leaders :
    ℕ → State → List Certificate → List Certificate → Option (State × List Certificate)
unfolding commit_all
commit_leaders gc_depth s [] sequence = some (s, sequence)
commit_leaders gc_depth s (x ∷ xs) sequence = elim (order_dag gc_depth x s) [
  | none ↦ none
  | some ordered ↦ commit_leaders gc_depth (commit_all gc_depth s ordered) xs (sequence ++ ordered)
]

-- Commit the leader and the past leaders that it is linked to.
unfoldable pub commit_leader :
    Committee → ℕ → State → Certificate → Option (State × List Certificate)
unfolding commit_leaders
commit_leader c gc_depth s newest = elim (order_leaders c newest s) [
  | none ↦ none
  | some leaders ↦ commit_leaders gc_depth s (reverse leaders) []
]

-- The decision at the even round `r`, once the certificate is in the dag.
unfoldable pub decide : Committee → ℕ → State → Round → Option (State × List Certificate)
unfolding support commit_leader
decide c gc_depth s r = elim (leader c (r - 2) s.dag) [
  | none ↦ some (s, [])
  | some (digest, newest) ↦ elim (lookup (r - 1) s.dag) [
    | none ↦ none
    | some row ↦
        if ltb (support c digest (values row)) (validity_threshold c)
        then some (s, [])
        else commit_leader c gc_depth s newest
  ]
]

-- The new state and the committed sequence; `none` is a panic.
unfoldable pub process_certificate :
    Crypto → Committee → ℕ → State → Certificate → Option (State × List Certificate)
unfolding insert_certificate decide
process_certificate crypto c gc_depth s x =
    let s' = record s { dag = insert_certificate crypto x s.dag } in
    let r = pred_u64 (round_of x) in
    if not (r % 2 == 0) || ltb r 4
    then some (s', [])
    else if leb (r - 2) s.last_committed_round
    then some (s', [])
    else decide c gc_depth s' r
