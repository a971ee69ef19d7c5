-- ===== src/Worker/BatchExecutor/Scheduler/ByVotes.antt =====
-- worker/src/batch_executor.rs: the branch for a single vote.
use dag_bft_sigmod.Base.{ℕ, none, List, [], ◌∷◌, ◌≡◌, refl, arith}
use dag_bft_sigmod.Worker.BatchExecutor.Scheduler.{Candidate, consider, best_candidate, by_votes}

-- It comes to the same as the loop over the votes.
pub by_votes-best_candidate :
    (max_allowed : ℕ) (xs : List Candidate)
    → by_votes max_allowed xs ≡ best_candidate max_allowed none xs
unfolding by_votes best_candidate consider
by_votes-best_candidate max_allowed [] = refl
by_votes-best_candidate max_allowed (x ∷ []) = ground arith
by_votes-best_candidate max_allowed (x ∷ y ∷ xs) = refl
