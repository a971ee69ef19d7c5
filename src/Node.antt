-- ===== src/Node.antt =====
-- node/src/main.rs: what the consensus puts out goes to our workers. The batches of a certificate are
-- grouped in a `HashMap` by worker; its order is that of the list.
pub mod Numbers
pub mod Executions
pub mod Examples
use dag_bft_sigmod.Base.{
  ℕ, zero, suc, ◌+◌, ◌%◌, ◌*◌, Option, none, some, List, [], ◌∷◌, ◌++◌, u32, length, nat_eq,
}
use dag_bft_sigmod.Base.Maps.{Map, lookup, insert, upsert}
use dag_bft_sigmod.Config.{PublicKey, SocketAddr, WorkerId, WorkerAddresses, Committee}
use dag_bft_sigmod.Primary.Errors.{Digest}
use dag_bft_sigmod.Primary.Messages.{Certificate, round_of}
use dag_bft_sigmod.Primary.Migrations.{MigrationNotice, migration_chunk_size, chunks_of}

pub data ConsensusOutput : Type 0 where
  certificate : Certificate → ConsensusOutput
  migrations : List MigrationNotice → ConsensusOutput

-- The messages for our workers.
pub data NodeOutput : Type 0 where
  committed_batches : SocketAddr → ℕ → List Digest → NodeOutput
  execute : SocketAddr → Digest → WorkerId → ℕ → NodeOutput
  migration_notices : SocketAddr → List MigrationNotice → NodeOutput

unfoldable pub primary_to_worker_addresses : Map WorkerId WorkerAddresses → Map WorkerId SocketAddr
primary_to_worker_addresses [] = []
primary_to_worker_addresses ((id, addresses) ∷ workers) =
    (id, addresses.primary_to_worker) ∷ primary_to_worker_addresses workers

-- `none` is the panic for a key that is not in the committee.
unfoldable pub addresses_of_our_workers : Committee → PublicKey → Option (Map WorkerId SocketAddr)
unfolding lookup primary_to_worker_addresses
addresses_of_our_workers committee name = elim (lookup name committee.authorities) [
  | none ↦ none
  | some authority ↦ some (primary_to_worker_addresses authority.workers)
]

unfoldable pub group_by_worker :
    Map Digest WorkerId → Map WorkerId (List Digest) → Map WorkerId (List Digest)
unfolding upsert
group_by_worker [] per_worker = per_worker
group_by_worker ((digest, worker_id) ∷ payload) per_worker =
    group_by_worker payload (upsert worker_id [] (λ digests. digests ++ (digest ∷ [])) per_worker)

-- An execution for each digest, each with the next sequence number.
unfoldable pub execute_digests : SocketAddr → WorkerId → List Digest → ℕ → List NodeOutput × ℕ
execute_digests address worker_id [] next_sequence = ([], next_sequence)
execute_digests address worker_id (digest ∷ digests) next_sequence =
    let (out, last) = execute_digests address worker_id digests (suc next_sequence) in
    (execute address digest worker_id next_sequence ∷ out, last)

unfoldable pub dispatch_batches :
    Map WorkerId SocketAddr → ℕ → Map WorkerId (List Digest) → ℕ → List NodeOutput × ℕ
unfolding lookup execute_digests
dispatch_batches our_workers round [] next_sequence = ([], next_sequence)
dispatch_batches our_workers round ((worker_id, digests) ∷ per_worker) next_sequence =
    elim (lookup worker_id our_workers) [
      | none ↦ dispatch_batches our_workers round per_worker next_sequence
      | some address ↦
          let (executions, next) = execute_digests address worker_id digests next_sequence in
          let (out, last) = dispatch_batches our_workers round per_worker next in
          (committed_batches address round digests ∷ (executions ++ out), last)
    ]

unfoldable pub notify_worker : SocketAddr → List (List MigrationNotice) → List NodeOutput
notify_worker address [] = []
notify_worker address (chunk ∷ chunks) =
    migration_notices address chunk ∷ notify_worker address chunks

unfoldable pub dispatch_notices :
    Map WorkerId SocketAddr → Map WorkerId (List MigrationNotice) → List NodeOutput
unfolding lookup chunks_of notify_worker
dispatch_notices our_workers [] = []
dispatch_notices our_workers ((worker_id, notices) ∷ per_worker) =
    let rest = dispatch_notices our_workers per_worker in
    elim (lookup worker_id our_workers) [
      | none ↦ rest
      | some address ↦
          notify_worker address (chunks_of (length notices) migration_chunk_size notices) ++ rest
    ]

unfoldable pub group_by_account :
    ℕ
    → List MigrationNotice
    → Map WorkerId (List MigrationNotice)
    → Map WorkerId (List MigrationNotice)
unfolding upsert
group_by_account num_workers [] per_worker = per_worker
group_by_account num_workers (notice ∷ notices) per_worker = group_by_account num_workers notices (
    upsert (u32 (notice.account_id % num_workers)) [] (λ before. before ++ (notice ∷ []))
      per_worker)

-- One turn of the loop of `analyze`: the messages and the next sequence number. `none` is a panic.
unfoldable pub analyze_output :
    Map WorkerId SocketAddr → ConsensusOutput → ℕ → Option (List NodeOutput × ℕ)
unfolding group_by_worker dispatch_batches group_by_account dispatch_notices
analyze_output our_workers (certificate x) next_sequence =
    some (
      dispatch_batches our_workers (round_of x) (group_by_worker x.header.payload []) next_sequence)
analyze_output [] (migrations notices) next_sequence = none
analyze_output (w ∷ our_workers) (migrations notices) next_sequence = some (
  dispatch_notices (w ∷ our_workers) (group_by_account (length (w ∷ our_workers)) notices []),
  next_sequence,
)

unfoldable pub analyze :
    Map WorkerId SocketAddr → List ConsensusOutput → ℕ → Option (List NodeOutput × ℕ)
unfolding analyze_output
analyze our_workers [] next_sequence = some ([], next_sequence)
analyze our_workers (output ∷ outputs) next_sequence =
    elim (analyze_output our_workers output next_sequence) [
      | none ↦ none
      | some (out, next) ↦ elim (analyze our_workers outputs next) [
        | none ↦ none
        | some (later, last) ↦ some (out ++ later, last)
      ]
    ]
