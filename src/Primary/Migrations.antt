-- ===== src/Primary/Migrations.antt =====
-- primary/src/messages.rs: the notices on accounts that move to another validator.
use dag_bft_sigmod.Base.{ℕ, zero, suc, List, [], ◌∷◌}
use dag_bft_sigmod.Config.{PublicKey}
use dag_bft_sigmod.Worker.Bytes.{take, drop}

pub record MigrationNotice : Type 0 where
  pub account_id : ℕ
  pub new_target : PublicKey

pub record MigrationMessage : Type 0 where
  pub sender : PublicKey
  pub notices : List MigrationNotice

abbrev pub migration_chunk_size : ℕ
migration_chunk_size = 5000

-- `slice::chunks`; the fuel is the length.
unfoldable pub chunks_of : ℕ → ℕ → List MigrationNotice → List (List MigrationNotice)
unfolding take drop
chunks_of zero size notices = []
chunks_of (suc fuel) size [] = []
chunks_of (suc fuel) size (x ∷ notices) =
    take size (x ∷ notices) ∷ chunks_of fuel size (drop size (x ∷ notices))
