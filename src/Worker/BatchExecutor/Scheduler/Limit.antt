-- ===== src/Worker/BatchExecutor/Scheduler/Limit.antt =====
-- worker/src/batch_executor.rs: no executor gets more transactions of a batch than the limit.
use dag_bft_sigmod.Base.{
  ℕ, zero, suc, ◌+◌, ◌*◌, ◌≤◌, true, some, List, [], ◌∷◌, ◌≡◌, inl, inr, refl, subst, ap, arith,
  if◌then◌else◌, length, get_elem?, ◌==◌, nat_eq, Option-cases,
}
use dag_bft_sigmod.Base.Maps.{Map, get_or}
use dag_bft_sigmod.Worker.Transaction.{parse_transaction_header}
use dag_bft_sigmod.Worker.BatchExecutor.{Partition}
use dag_bft_sigmod.Worker.BatchExecutor.Scheduler.Loads.{
  sum, has_room, choose_executor-room, sum-add_load, length-add_load, sum-zero_loads,
  length-zero_loads,
}
use dag_bft_sigmod.Worker.BatchExecutor.Scheduler.{
  Scheduled, choose_executor, add_load, zero_loads, schedule_new, extract_required_accounts,
  tally_votes, update_owners,
}

-- How many of the transactions go to the executor.
unfoldable pub targeted : ℕ → List Scheduled → ℕ
targeted i [] = 0
targeted i (x ∷ xs) = (if x.target == i then 1 else 0) + targeted i xs

unfoldable load_of : ℕ → List ℕ → ℕ
unfolding get_elem?
load_of i loads = get_or 0 (get_elem? loads i)

-- A transaction is counted for the executor that it goes to, and that executor had room.
add_load-load_of :
    (max_allowed target i : ℕ) (loads : List ℕ)
    → has_room max_allowed loads target ≡ true
    → (load_of i (add_load target loads) ≡ (if target == i then 1 else 0) + load_of i loads)
      × (load_of i loads ≤ max_allowed → load_of i (add_load target loads) ≤ max_allowed)
unfolding load_of add_load has_room get_elem?
add_load-load_of max_allowed zero i [] room = absurd (cc)
add_load-load_of max_allowed (suc target) i [] room = absurd (cc)
add_load-load_of max_allowed zero zero (load ∷ loads) room = ground arith
add_load-load_of max_allowed zero (suc i) (load ∷ loads) room = ground arith
add_load-load_of max_allowed (suc target) zero (load ∷ loads) room = ground arith
add_load-load_of max_allowed (suc target) (suc i) (load ∷ loads) room =
    let (count, bound) = add_load-load_of max_allowed target i loads room in
    (ground (arith, count), bound)

-- If all of the transactions find room, what an executor has had and what it gets fit in the limit.
schedule_new-targeted_from :
    (max_allowed i : ℕ) (p : Partition) (owners : Map ℕ ℕ) (loads : List ℕ) (txs : List (List ℕ))
    (result : List Scheduled) (last : List ℕ)
    → sum loads + length txs ≤ max_allowed * length loads
    → load_of i loads ≤ max_allowed
    → schedule_new max_allowed p owners loads txs ≡ some (result, last)
    → targeted i result + load_of i loads ≤ max_allowed
unfolding schedule_new targeted
schedule_new-targeted_from max_allowed i p owners loads [] result last room low h =
    let same : [] ≡ result = cc in
    let none_yet : targeted i [] ≡ 0 = refl in
    subst (λ r. targeted i r + load_of i loads ≤ max_allowed) same (omega (arith, none_yet, low))
schedule_new-targeted_from max_allowed i p owners loads (tx ∷ txs) result last room low h =
    elim (Option-cases (parse_transaction_header tx)) [
      | inl n ↦
          schedule_new-targeted_from max_allowed i p owners loads txs result last (omega arith) low
            (ground arith)
      | inr (header, e) ↦ elim (Option-cases (extract_required_accounts tx)) [
        | inl n ↦ absurd (ground arith)
        | inr (required, r) ↦ elim (Option-cases (tally_votes owners p required [])) [
          | inl n ↦ absurd (ground arith)
          | inr (votes, v) ↦ elim (Option-cases (choose_executor max_allowed loads votes)) [
            | inl n ↦ absurd (ground arith)
            | inr (target, c) ↦
                let owners' = update_owners target required owners in
                let loads' = add_load target loads in
                elim (Option-cases (schedule_new max_allowed p owners' loads' txs)) [
                  | inl n ↦ absurd (ground arith)
                  | inr ((later, end), s) ↦
                      let fits =
                        choose_executor-room max_allowed loads votes target (omega arith) c in
                      let (count, bound) = add_load-load_of max_allowed target i loads fits in
                      let rest =
                        schedule_new-targeted_from max_allowed i p owners' loads' txs later end
                          (omega (
                            arith,
                            sum-add_load target loads,
                            ap (λ n. max_allowed * n) (length-add_load target loads),
                          ))
                          (bound low) s in
                      let first : Scheduled = record {
                        tx_bytes = tx;
                        header = header;
                        required_accounts = required;
                        target = target;
                      } in
                      let same : first ∷ later ≡ result = ground arith in
                      subst (λ r. targeted i r + load_of i loads ≤ max_allowed) same
                        (omega (arith, count, rest))
                ]
          ]
        ]
      ]
    ]

load_of-zero_loads : (i n : ℕ) → load_of i (zero_loads n) ≡ 0
unfolding load_of zero_loads get_elem?
load_of-zero_loads zero zero = refl
load_of-zero_loads (suc i) zero = refl
load_of-zero_loads zero (suc n) = refl
load_of-zero_loads (suc i) (suc n) = load_of-zero_loads i n

-- The new scheduler, over a whole batch: if the limit times the number of executors is at least the
-- number of transactions, no more transactions than the limit go to any executor.
pub schedule_new-targeted :
    (max_allowed num_executors i : ℕ) (p : Partition) (txs : List (List ℕ))
    (result : List Scheduled) (last : List ℕ)
    → length txs ≤ max_allowed * num_executors
    → schedule_new max_allowed p [] (zero_loads num_executors) txs ≡ some (result, last)
    → targeted i result ≤ max_allowed
schedule_new-targeted max_allowed num_executors i p txs result last room h =
    let none_yet = load_of-zero_loads i num_executors in
    omega (
      arith,
      none_yet,
      schedule_new-targeted_from max_allowed i p [] (zero_loads num_executors) txs result last
          (omega (
            arith,
            sum-zero_loads num_executors,
            ap (λ n. max_allowed * n) (length-zero_loads num_executors),
          ))
          (omega (arith, none_yet)) h,
    )
