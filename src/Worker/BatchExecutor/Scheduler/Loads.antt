-- ===== src/Worker/BatchExecutor/Scheduler/Loads.antt =====
-- worker/src/batch_executor.rs: an executor is chosen that has room.
use dag_bft_sigmod.Base.{
  ℕ, zero, suc, ◌+◌, ◌-◌, ◌*◌, ◌≤◌, ◌<◌, Bool, true, false, Option, none, some, List, [], ◌∷◌, ◌≡◌,
  inl, inr, refl, subst, arith, All, ltb, length, get_elem?, Option-cases, Bool-cases, nat_eq,
}
use dag_bft_sigmod.Base.Maps.{Map}
use dag_bft_sigmod.Worker.BatchExecutor.Scheduler.ByVotes.{by_votes-best_candidate}
use dag_bft_sigmod.Worker.BatchExecutor.Scheduler.{
  Candidate, candidates, consider, best_candidate, by_votes, least_loaded_from, choose_executor,
  add_load, zero_loads,
}

unfoldable pub sum : List ℕ → ℕ
sum [] = 0
sum (x ∷ xs) = x + sum xs

-- The executor's load is below the limit.
unfoldable pub has_room : ℕ → List ℕ → ℕ → Bool
unfolding get_elem?
has_room max_allowed loads e = elim (get_elem? loads e) [
  | none ↦ false
  | some load ↦ ltb load max_allowed
]

All-lower :
    (a b : ℕ) (loads : List ℕ) → a ≤ b → All (λ load. b ≤ load) loads → All (λ load. a ≤ load) loads
All-lower a b [] le h = tt
All-lower a b (x ∷ loads) le h = (omega arith, All-lower a b loads le h.1)

least_loaded_from-All :
    (i : ℕ) (loads : List ℕ) (j least : ℕ)
    → least_loaded_from i loads ≡ some (j, least)
    → All (λ load. least ≤ load) loads
unfolding least_loaded_from
least_loaded_from-All i [] j least h = tt
least_loaded_from-All i (load ∷ loads) j least h =
    elim (Option-cases (least_loaded_from (suc i) loads)) [
      | inl n ↦ (ground arith, None-all loads n)
      | inr ((j', l), e) ↦
          let all = least_loaded_from-All (suc i) loads j' l e in
          (ground arith, All-lower least l loads (ground arith) all)
    ]
  where
    None-all : (rest : List ℕ) → least_loaded_from (suc i) rest ≡ none → All (λ x. least ≤ x) rest
    None-all [] n = tt
    None-all (x ∷ xs) n = absurd (ground arith)

least_loaded_from_at :
    (i : ℕ) (loads : List ℕ) (j least : ℕ)
    → least_loaded_from i loads ≡ some (j, least)
    → (i ≤ j) × (get_elem? loads (j - i) ≡ some least)
unfolding least_loaded_from get_elem?
least_loaded_from_at i [] j least h = absurd (cc)
least_loaded_from_at i (load ∷ loads) j least h =
    elim (Option-cases (least_loaded_from (suc i) loads)) [
      | inl n ↦ ground arith
      | inr ((j', l), e) ↦
          let (le, at) = least_loaded_from_at (suc i) loads j' l e in
          let next : j' - i ≡ suc (j' - suc i) = omega arith in ground (arith, next)
    ]

sum_ge : (m : ℕ) (loads : List ℕ) → All (λ load. m ≤ load) loads → m * length loads ≤ sum loads
unfolding sum
sum_ge m [] h = omega arith
sum_ge m (load ∷ loads) h = omega (arith, sum_ge m loads h.1)

pub sum-add_load : (i : ℕ) (loads : List ℕ) → sum (add_load i loads) ≤ suc (sum loads)
unfolding sum add_load
sum-add_load zero [] = omega arith
sum-add_load (suc i) [] = omega arith
sum-add_load zero (load ∷ loads) = omega arith
sum-add_load (suc i) (load ∷ loads) = omega (arith, sum-add_load i loads)

pub length-add_load : (i : ℕ) (loads : List ℕ) → length (add_load i loads) ≡ length loads
unfolding add_load
length-add_load zero [] = refl
length-add_load (suc i) [] = refl
length-add_load zero (load ∷ loads) = refl
length-add_load (suc i) (load ∷ loads) = omega (arith, length-add_load i loads)

-- The candidate's load is the executor's.
abbrev HasLoad : List ℕ → Candidate → Type 0
HasLoad loads x = get_elem? loads x.executor ≡ some x.load

candidates-HasLoad :
    (loads : List ℕ) (votes : Map ℕ ℕ) (xs : List Candidate)
    → candidates loads votes ≡ some xs
    → All (HasLoad loads) xs
unfolding candidates
candidates-HasLoad loads [] [] h = tt
candidates-HasLoad loads [] (x ∷ xs) h = absurd (cc)
candidates-HasLoad loads ((e, score) ∷ votes) xs h = elim (Option-cases (get_elem? loads e)) [
  | inl n ↦ absurd (ground arith)
  | inr (load, l) ↦ elim (Option-cases (candidates loads votes)) [
    | inl n ↦ absurd (ground arith)
    | inr (later, c) ↦
        let x : Candidate = record { executor = e; score = score; load = load } in
        let same : x ∷ later ≡ xs = ground arith in
        subst (All (HasLoad loads)) same (l, candidates-HasLoad loads votes later c)
  ]
]

unfoldable room_for : ℕ → List ℕ → Option Candidate → Bool
unfolding has_room
room_for max_allowed loads none = true
room_for max_allowed loads (some x) = has_room max_allowed loads x.executor

abbrev HasRoom : ℕ → List ℕ → Option Candidate → Type 0
HasRoom max_allowed loads best = room_for max_allowed loads best ≡ true

consider-HasRoom :
    (max_allowed : ℕ) (loads : List ℕ) (best : Option Candidate) (x : Candidate)
    → HasLoad loads x
    → HasRoom max_allowed loads best
    → HasRoom max_allowed loads (consider max_allowed best x)
unfolding consider has_room room_for
consider-HasRoom max_allowed loads none x l h = ground arith
consider-HasRoom max_allowed loads (some b) x l h = ground arith

best_candidate-HasRoom :
    (max_allowed : ℕ) (loads : List ℕ) (best : Option Candidate) (xs : List Candidate)
    → All (HasLoad loads) xs
    → HasRoom max_allowed loads best
    → HasRoom max_allowed loads (best_candidate max_allowed best xs)
unfolding best_candidate
best_candidate-HasRoom max_allowed loads best [] l h = h
best_candidate-HasRoom max_allowed loads best (x ∷ xs) l h =
    best_candidate-HasRoom max_allowed loads (consider max_allowed best x) xs l.1
      (consider-HasRoom max_allowed loads best x l.0 h)

pub choose_executor-room :
    (max_allowed : ℕ) (loads : List ℕ) (votes : Map ℕ ℕ) (e : ℕ)
    → sum loads < max_allowed * length loads
    → choose_executor max_allowed loads votes ≡ some e
    → has_room max_allowed loads e ≡ true
unfolding choose_executor room_for
choose_executor-room max_allowed loads votes e room h =
    elim (Option-cases (candidates loads votes)) [
      | inl n ↦ absurd (ground arith)
      | inr (xs, c) ↦
          let fits : HasRoom max_allowed loads (by_votes max_allowed xs) =
            rw (by_votes-best_candidate max_allowed xs) (
              best_candidate-HasRoom max_allowed loads none xs (candidates-HasLoad loads votes xs c)
                refl) in
          elim (Option-cases (by_votes max_allowed xs)) [
            | inr (x, b) ↦ ground arith
            | inl b ↦ elim (Option-cases (least_loaded_from 0 loads)) [
              | inl n ↦ absurd (ground arith)
              | inr ((i, least), l) ↦
                  let same : i ≡ e = ground arith in
                  let (le, at) = least_loaded_from_at 0 loads i least l in
                  elim (Bool-cases (ltb least max_allowed)) [
                    | inl below ↦
                        let here : i - 0 ≡ e = omega (arith, same) in
                        let found : get_elem? loads e ≡ some least =
                          subst (λ j. get_elem? loads j ≡ some least) here at in
                        ground arith
                    | inr full ↦
                        let all =
                          All-lower max_allowed least loads (ground arith)
                            (least_loaded_from-All 0 loads i least l) in
                        absurd (omega (arith, sum_ge max_allowed loads all))
                  ]
            ]
          ]
    ]

pub sum-zero_loads : (n : ℕ) → sum (zero_loads n) ≡ 0
unfolding sum zero_loads
sum-zero_loads zero = refl
sum-zero_loads (suc n) = omega (arith, sum-zero_loads n)

pub length-zero_loads : (n : ℕ) → length (zero_loads n) ≡ n
unfolding zero_loads
length-zero_loads zero = refl
length-zero_loads (suc n) = omega (arith, length-zero_loads n)
