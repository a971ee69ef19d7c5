-- ===== src/Primary/Proposer/Examples.antt =====
-- A proposer that makes two headers, and the theorems at it.
use dag_bft_sigmod.Base.{ℕ, ◌≡◌, refl, Bool, true, false, ◌||◌, List, [], ◌∷◌, map, arith}
use dag_bft_sigmod.Config.Examples.{four}
use dag_bft_sigmod.Primary.Messages.{Header}
use dag_bft_sigmod.Primary.Examples.{toy_crypto}
use dag_bft_sigmod.Primary.Proposer.{
  Proposer, ProposerEvent, parents_from_core, batch_from_worker, timer, new_proposer, run_proposer,
}
use dag_bft_sigmod.Primary.Proposer.Rounds.{Ascending, next_round, run_proposer-Ascending}
use dag_bft_sigmod.Primary.Proposer.Batches.{listed, proposed, reported, run_proposer-keeps_batches}

-- Two batches, the timer, the parents of the next round, and the timer again.
abbrev turns : List (Bool × (ℕ × ProposerEvent))
turns =
    (false, (10, batch_from_worker 91 0 ((5, 2) ∷ []) 4))
    ∷ (false, (20, batch_from_worker 92 0 ((5, 1) ∷ []) 8))
    ∷ (false, (30, parents_from_core (71 ∷ 72 ∷ 73 ∷ []) 1))
    ∷ (true, (40, timer))
    ∷ (true, (50, timer))
    ∷ []

abbrev start : Proposer
start = new_proposer toy_crypto (λ digest. digest) four

abbrev outcome : Proposer × List Header
outcome = run_proposer toy_crypto (λ digest. digest) 1 1000 start turns

second_round : map (λ h. h.round) outcome.1 ≡ 2 ∷ []
unfolding run_proposer new_proposer
second_round = refl

run_proposer-Ascending_example : Ascending (next_round start) outcome.1
run_proposer-Ascending_example =
    run_proposer-Ascending toy_crypto (λ digest. digest) 1 1000 start turns (omega arith)

run_proposer-keeps_batches_example :
    (proposed 91 outcome.1 || listed 91 outcome.0.digests)
    ≡ (listed 91 start.digests || reported 91 turns)
run_proposer-keeps_batches_example =
    run_proposer-keeps_batches toy_crypto (λ digest. digest) 1 1000 91 start turns
