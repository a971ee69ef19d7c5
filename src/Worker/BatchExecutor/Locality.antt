-- ===== src/Worker/BatchExecutor/Locality.antt =====
-- worker/src/batch_executor.rs: who executes a transaction, and what becomes of the partition.
-- `none` is the panic on an account that the partition does not have.
pub mod Agreement
pub mod Handoff
use dag_bft_sigmod.Base.{
  ℕ, Bool, true, false, Option, none, some, List, [], ◌∷◌, if◌then◌else◌, ◌==◌, nat_eq,
}
use dag_bft_sigmod.Base.Maps.{Map, lookup, insert}
use dag_bft_sigmod.Worker.BatchExecutor.{
  Partition, TransactionLocality, local, migrate_out, migrate_in, others,
}

unfoldable pub get_executor_id_by_partition : Partition → ℕ → Option ℕ
unfolding lookup
get_executor_id_by_partition partition account_id = lookup account_id partition

-- The accounts with their executors; `none` is a panic.
unfoldable pub owners : Partition → List ℕ → Option (List (ℕ × ℕ))
unfolding get_executor_id_by_partition
owners partition [] = some []
owners partition (account ∷ accounts) =
    let rest = owners partition accounts in
    elim (get_executor_id_by_partition partition account) [
      | none ↦ none
      | some owner ↦ elim rest [ none ↦ none | some later ↦ some ((account, owner) ∷ later) ]
    ]

-- The accounts that are not the executor's, with their executors.
unfoldable pub missing_accounts : ℕ → List (ℕ × ℕ) → List (ℕ × ℕ)
missing_accounts executor_id [] = []
missing_accounts executor_id ((account, owner) ∷ accounts) =
    let rest = missing_accounts executor_id accounts in
    if owner == executor_id then rest else (account, owner) ∷ rest

unfoldable pub owned_accounts : ℕ → List (ℕ × ℕ) → List ℕ
owned_accounts executor_id [] = []
owned_accounts executor_id ((account, owner) ∷ accounts) =
    let rest = owned_accounts executor_id accounts in
    if owner == executor_id then account ∷ rest else rest

unfoldable pub other_accounts : ℕ → List (ℕ × ℕ) → List ℕ
other_accounts executor_id [] = []
other_accounts executor_id ((account, owner) ∷ accounts) =
    let rest = other_accounts executor_id accounts in
    if owner == executor_id then rest else account ∷ rest

unfoldable pub locality_of : ℕ → List (ℕ × ℕ) → ℕ → TransactionLocality
unfolding missing_accounts owned_accounts other_accounts
locality_of executor_id accounts target =
    if target == executor_id
    then elim (missing_accounts executor_id accounts) [ [] ↦ local | x ∷ xs ↦ migrate_in (x ∷ xs) ]
    else elim (owned_accounts executor_id accounts) [
      | [] ↦ others target
      | x ∷ xs ↦ migrate_out (x ∷ xs) (other_accounts executor_id accounts) target
    ]

unfoldable pub determine_locality : ℕ → Partition → List ℕ → ℕ → Option TransactionLocality
unfolding owners locality_of
determine_locality executor_id partition required_accounts target =
    elim (owners partition required_accounts) [
      | none ↦ none
      | some accounts ↦ some (locality_of executor_id accounts target)
    ]

unfoldable pub assign : ℕ → List ℕ → Partition → Partition
unfolding insert
assign executor [] partition = partition
assign executor (account ∷ accounts) partition =
    assign executor accounts (insert account executor partition)

unfoldable pub assign_missing : ℕ → List (ℕ × ℕ) → Partition → Partition
unfolding insert
assign_missing executor [] partition = partition
assign_missing executor ((account, src) ∷ accounts) partition =
    assign_missing executor accounts (insert account executor partition)

unfoldable pub update_partition_for_locality :
    ℕ → Partition → TransactionLocality → List ℕ → Partition
unfolding assign assign_missing
update_partition_for_locality executor_id partition (migrate_in accounts) required_accounts =
    assign_missing executor_id accounts partition
update_partition_for_locality executor_id partition (migrate_out owned other dest)
      required_accounts =
    assign dest other (assign dest owned partition)
update_partition_for_locality executor_id partition (others target) required_accounts =
    assign target required_accounts partition
update_partition_for_locality executor_id partition local required_accounts = partition
