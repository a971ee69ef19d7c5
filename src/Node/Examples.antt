-- ===== src/Node/Examples.antt =====
-- A certificate with batches of two workers, and the theorem of `Node` at it.
use dag_bft_sigmod.Base.{ℕ, ◌+◌, ◌≡◌, refl, List, [], ◌∷◌, nat_eq}
use dag_bft_sigmod.Base.Maps.{Map}
use dag_bft_sigmod.Config.{SocketAddr, WorkerId}
use dag_bft_sigmod.Primary.Messages.{Certificate, default_header}
use dag_bft_sigmod.Primary.Migrations.{MigrationNotice}
use dag_bft_sigmod.Node.{
  ConsensusOutput, certificate, migrations, NodeOutput, committed_batches, execute,
  migration_notices, analyze,
}
use dag_bft_sigmod.Node.Numbers.{numbers, range}
use dag_bft_sigmod.Node.Executions.{executions, cited, analyze_lem}

abbrev two_workers : Map WorkerId SocketAddr
two_workers = (0, 70) ∷ (1, 71) ∷ []

-- Batches 11 and 13 of worker 0, batch 12 of worker 1, and batch 14 of a worker that we do not have.
abbrev of_two_workers : Certificate
of_two_workers = record {
  header = record default_header {
    round = 4;
    payload = (11, 0) ∷ (12, 1) ∷ (13, 0) ∷ (14, 9) ∷ [];
  };
  votes = [];
}

abbrev reroute : MigrationNotice
reroute = record { account_id = 5; new_target = 2 }

abbrev two_outputs : List ConsensusOutput
two_outputs = certificate of_two_workers ∷ migrations (reroute ∷ []) ∷ []

abbrev messages : List NodeOutput
messages =
    committed_batches 70 4 (11 ∷ 13 ∷ [])
    ∷ execute 70 11 0 20
    ∷ execute 70 13 0 21
    ∷ committed_batches 71 4 (12 ∷ [])
    ∷ execute 71 12 1 22
    ∷ migration_notices 71 (reroute ∷ [])
    ∷ []

analyze_lem_example :
    ((n : ℕ) × (23 ≡ 20 + n) × (numbers messages ≡ range 20 n))
    × (executions 13 messages ≡ cited 13 two_workers two_outputs)
unfolding analyze default_header
analyze_lem_example = analyze_lem 13 two_workers two_outputs 20 23 messages refl
