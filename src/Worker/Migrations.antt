-- ===== src/Worker/Migrations.antt =====
-- worker/src/synchronizer.rs: migration notices go to the clients of the validators they come from. The
-- clients are in the order of the list.
use dag_bft_sigmod.Base.{none, some, List, [], ◌∷◌, ◌++◌, length, nat_eq}
use dag_bft_sigmod.Base.Maps.{Map, upsert}
use dag_bft_sigmod.Config.{PublicKey, SocketAddr, Committee, ok, err, home_validator, client_reply}
use dag_bft_sigmod.Primary.Migrations.{
  MigrationNotice, MigrationMessage, migration_chunk_size, chunks_of,
}

-- A notice for an account that no validator has is dropped.
unfoldable pub group_by_client :
    Committee
    → List MigrationNotice
    → Map PublicKey (List MigrationNotice)
    → Map PublicKey (List MigrationNotice)
unfolding home_validator upsert
group_by_client committee [] per_client = per_client
group_by_client committee (notice ∷ notices) per_client =
    elim (home_validator committee notice.account_id) [
      | none ↦ group_by_client committee notices per_client
      | some pk ↦
          group_by_client committee notices
            (upsert pk [] (λ before. before ++ (notice ∷ [])) per_client)
    ]

unfoldable pub notify_client :
    PublicKey → SocketAddr → List (List MigrationNotice) → List (SocketAddr × MigrationMessage)
notify_client name addr [] = []
notify_client name addr (chunk ∷ chunks) =
    (addr, record { sender = name; notices = chunk }) ∷ notify_client name addr chunks

unfoldable pub notify_clients :
    Committee
    → PublicKey
    → Map PublicKey (List MigrationNotice)
    → List (SocketAddr × MigrationMessage)
unfolding client_reply chunks_of notify_client
notify_clients committee name [] = []
notify_clients committee name ((client_validator, client_notices) ∷ per_client) =
    let rest = notify_clients committee name per_client in
    elim (client_reply committee client_validator) [
      | err e ↦ rest
      | ok addr ↦
          notify_client name addr
            (chunks_of (length client_notices) migration_chunk_size client_notices)
          ++ rest
    ]

unfoldable pub handle_migration_notices :
    Committee → PublicKey → List MigrationNotice → List (SocketAddr × MigrationMessage)
unfolding group_by_client notify_clients
handle_migration_notices committee name notices =
    notify_clients committee name (group_by_client committee notices [])
