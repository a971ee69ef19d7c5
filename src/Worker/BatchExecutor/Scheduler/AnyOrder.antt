-- ===== src/Worker/BatchExecutor/Scheduler/AnyOrder.antt =====
-- worker/src/batch_executor.rs: the choice of an executor does not depend on the order in which the
-- `HashMap` of votes is iterated over, which differs between processes.
use mathlib.Core.List.{Permᴰ}
use dag_bft_sigmod.Base.{
  ℕ, Option, none, some, List, ◌∷◌, ◌≡◌, inl, inr, refl, ap, ap₂, ◌∙◌, arith, get_elem?,
  Option-cases, nat_eq,
}
use dag_bft_sigmod.Base.Maps.{Map}
use dag_bft_sigmod.Worker.BatchExecutor.Scheduler.ByVotes.{by_votes-best_candidate}
use dag_bft_sigmod.Worker.BatchExecutor.Scheduler.{
  Candidate, candidates, is_better, consider, best_candidate, least_loaded_from, choose_executor,
}

consider_comm :
    (max_allowed : ℕ) (best : Option Candidate) (x y : Candidate)
    → consider max_allowed (consider max_allowed best x) y
      ≡ consider max_allowed (consider max_allowed best y) x
unfolding consider is_better
consider_comm max_allowed none x y = ground arith
consider_comm max_allowed (some b) x y = ground arith

-- The best of the votes and of what is best so far; `none` is an index out of bounds.
unfoldable best_vote : ℕ → List ℕ → Option Candidate → Map ℕ ℕ → Option (Option Candidate)
unfolding candidates best_candidate
best_vote max_allowed loads best votes = elim (candidates loads votes) [
  | none ↦ none
  | some xs ↦ some (best_candidate max_allowed best xs)
]

best_vote-cons :
    (max_allowed : ℕ) (loads : List ℕ) (best : Option Candidate) (e score : ℕ) (votes : Map ℕ ℕ)
    → best_vote max_allowed loads best ((e, score) ∷ votes) ≡ elim (get_elem? loads e) [
      | none ↦ none
      | some load ↦
          best_vote max_allowed loads
            (consider max_allowed best (record { executor = e; score = score; load = load }))
            votes
    ]
unfolding best_vote candidates best_candidate
best_vote-cons max_allowed loads best e score votes = ground arith

abbrev candidate_of : ℕ × ℕ → ℕ → Candidate
candidate_of vote load = record { executor = vote.0; score = vote.1; load = load }

best_vote-swap :
    (max_allowed : ℕ) (loads : List ℕ) (best : Option Candidate) (a b : ℕ × ℕ) (votes : Map ℕ ℕ)
    → best_vote max_allowed loads best (a ∷ b ∷ votes)
      ≡ best_vote max_allowed loads best (b ∷ a ∷ votes)
best_vote-swap max_allowed loads best a b votes =
    let start_a = best_vote-cons max_allowed loads best a.0 a.1 (b ∷ votes) in
    let start_b = best_vote-cons max_allowed loads best b.0 b.1 (a ∷ votes) in
    elim (Option-cases (get_elem? loads a.0)) [
      | inl na ↦ elim (Option-cases (get_elem? loads b.0)) [
        | inl nb ↦ ground (arith, start_a, start_b)
        | inr (lb, eb) ↦ ground (
          arith,
          start_a,
          start_b,
          best_vote-cons max_allowed loads (consider max_allowed best (candidate_of b lb)) a.0 a.1
              votes,
        )
      ]
      | inr (la, ea) ↦ elim (Option-cases (get_elem? loads b.0)) [
        | inl nb ↦ ground (
          arith,
          start_a,
          start_b,
          best_vote-cons max_allowed loads (consider max_allowed best (candidate_of a la)) b.0 b.1
              votes,
        )
        | inr (lb, eb) ↦ ground (
          arith,
          start_a,
          start_b,
          best_vote-cons max_allowed loads (consider max_allowed best (candidate_of b lb)) a.0 a.1
              votes,
          best_vote-cons max_allowed loads (consider max_allowed best (candidate_of a la)) b.0 b.1
              votes,
          consider_comm max_allowed best (candidate_of a la) (candidate_of b lb),
        )
      ]
    ]

best_vote-cons_congr :
    (max_allowed : ℕ) (loads : List ℕ) (best : Option Candidate) (a : ℕ × ℕ)
    (votes votes' : Map ℕ ℕ)
    → ((best' : Option Candidate)
        → best_vote max_allowed loads best' votes ≡ best_vote max_allowed loads best' votes')
    → best_vote max_allowed loads best (a ∷ votes) ≡ best_vote max_allowed loads best (a ∷ votes')
best_vote-cons_congr max_allowed loads best a votes votes' same =
    let start = best_vote-cons max_allowed loads best a.0 a.1 votes in
    let start' = best_vote-cons max_allowed loads best a.0 a.1 votes' in
    elim (Option-cases (get_elem? loads a.0)) [
      | inl n ↦ ground (arith, start, start')
      | inr (load, e) ↦
          ground (arith, start, start', same (consider max_allowed best (candidate_of a load)))
    ]

best_vote-Perm :
    (max_allowed : ℕ) (loads : List ℕ) (best : Option Candidate) {votes votes' : Map ℕ ℕ}
    → Permᴰ votes votes'
    → best_vote max_allowed loads best votes ≡ best_vote max_allowed loads best votes'
best_vote-Perm max_allowed loads best (Permᴰ.nil) = refl
best_vote-Perm max_allowed loads best (Permᴰ.cons {a} {b} {l₁} {l₂} e p) =
    ap (λ v. best_vote max_allowed loads best (v ∷ l₁)) e
    ∙ best_vote-cons_congr max_allowed loads best b l₁ l₂
        (λ best'. best_vote-Perm max_allowed loads best' p)
best_vote-Perm max_allowed loads best (Permᴰ.swap {a} {b} {a'} {b'} {l} e f) =
    ap₂ (λ v w. best_vote max_allowed loads best (v ∷ w ∷ l)) e f
    ∙ best_vote-swap max_allowed loads best b' a' l
best_vote-Perm max_allowed loads best (Permᴰ.trans p q) =
    best_vote-Perm max_allowed loads best p ∙ best_vote-Perm max_allowed loads best q

choose_executor_lem :
    (max_allowed : ℕ) (loads : List ℕ) (votes : Map ℕ ℕ)
    → choose_executor max_allowed loads votes ≡ elim (best_vote max_allowed loads none votes) [
      | none ↦ none
      | some (some x) ↦ some x.executor
      | some none ↦ elim (least_loaded_from 0 loads) [ none ↦ none | some (i, load) ↦ some i ]
    ]
unfolding choose_executor best_vote
choose_executor_lem max_allowed loads votes = elim (Option-cases (candidates loads votes)) [
  | inl n ↦ ground arith
  | inr (xs, e) ↦ ground (arith, by_votes-best_candidate max_allowed xs)
]

-- The executor chosen, or the panic, is the same for every order of the votes.
pub choose_executor-Perm :
    (max_allowed : ℕ) (loads : List ℕ) (votes votes' : Map ℕ ℕ)
    → Permᴰ votes votes'
    → choose_executor max_allowed loads votes ≡ choose_executor max_allowed loads votes'
choose_executor-Perm max_allowed loads votes votes' p =
    rw
      (
        choose_executor_lem max_allowed loads votes,
        choose_executor_lem max_allowed loads votes',
        best_vote-Perm max_allowed loads none p,
      )
      refl
