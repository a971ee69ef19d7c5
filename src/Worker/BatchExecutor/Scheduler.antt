-- ===== src/Worker/BatchExecutor/Scheduler.antt =====
-- worker/src/batch_executor.rs: which executor gets each transaction of a batch. The votes of a
-- transaction are a list, in the order in which the code iterates over its `HashMap`.
pub mod ByVotes
pub mod AnyOrder
pub mod Loads
pub mod Limit
use dag_bft_sigmod.Base.{
  ℕ, zero, suc, ◌+◌, Bool, true, false, ◌&&◌, ◌||◌, Option, none, some, List, [], ◌∷◌,
  if◌then◌else◌, ltb, ◌==◌, u64, length, get_elem?, nat_eq,
}
use dag_bft_sigmod.Base.Maps.{Map, lookup, insert, upsert}
use dag_bft_sigmod.Worker.Workload.{
  SmallBankTxType, SmallBankTransaction, balance, deposit_checking, transact_savings, write_check,
  send_payment,
}
use dag_bft_sigmod.Worker.Transaction.{
  TransactionHeader, parse_transaction_header, parse_smallbank_payload,
}
use dag_bft_sigmod.Worker.BatchExecutor.{Partition}
use dag_bft_sigmod.Worker.BatchExecutor.Locality.{get_executor_id_by_partition}

-- A transaction with its header, its accounts and its executor.
pub record Scheduled : Type 0 where
  pub tx_bytes : List ℕ
  pub header : TransactionHeader
  pub required_accounts : List ℕ
  pub target : ℕ

-- `none` is a panic.
unfoldable pub extract_required_accounts : List ℕ → Option (List ℕ)
unfolding parse_smallbank_payload
extract_required_accounts raw = elim (parse_smallbank_payload raw) [
  | none ↦ none
  | some sb_tx ↦ some (elim sb_tx.tx_type [
    | send_payment ↦ sb_tx.account_id ∷ sb_tx.dest_account_id ∷ []
    | _ ↦ sb_tx.account_id ∷ []
  ])
]

-- The owner of an account: by the batch so far, or else by the partition. `none` is a panic.
unfoldable pub current_owner : Map ℕ ℕ → Partition → ℕ → Option ℕ
unfolding lookup
current_owner local_updates partition account = elim (lookup account local_updates) [
  | some owner ↦ some owner
  | none ↦ lookup account partition
]

unfoldable pub tally_votes : Map ℕ ℕ → Partition → List ℕ → Map ℕ ℕ → Option (Map ℕ ℕ)
unfolding current_owner upsert
tally_votes local_updates partition [] votes = some votes
tally_votes local_updates partition (account ∷ accounts) votes =
    elim (current_owner local_updates partition account) [
      | none ↦ none
      | some owner ↦
          tally_votes local_updates partition accounts (upsert owner 0 (λ n. n + 1) votes)
    ]

-- An executor with its votes and its load.
pub record Candidate : Type 0 where
  pub executor : ℕ
  pub score : ℕ
  pub load : ℕ

-- `none` is an index out of bounds.
unfoldable pub candidates : List ℕ → Map ℕ ℕ → Option (List Candidate)
unfolding get_elem?
candidates loads [] = some []
candidates loads ((executor, score) ∷ votes) =
    let rest = candidates loads votes in
    elim (get_elem? loads executor) [
      | none ↦ none
      | some load ↦ elim rest [
        | none ↦ none
        | some later ↦ some (record { executor = executor; score = score; load = load } ∷ later)
      ]
    ]

-- More votes, then less load, then the smaller id.
unfoldable pub is_better : Candidate → Candidate → Bool
is_better x best =
    ltb best.score x.score
    || ((x.score == best.score && ltb x.load best.load)
        || (x.score == best.score && (x.load == best.load && ltb x.executor best.executor)))

-- One turn of the loop over the votes.
unfoldable pub consider : ℕ → Option Candidate → Candidate → Option Candidate
unfolding is_better
consider max_allowed best x =
    if ltb x.load max_allowed
    then elim best [ none ↦ some x | some b ↦ if is_better x b then some x else some b ]
    else best

unfoldable pub best_candidate : ℕ → Option Candidate → List Candidate → Option Candidate
unfolding consider
best_candidate max_allowed best [] = best
best_candidate max_allowed best (x ∷ xs) =
    best_candidate max_allowed (consider max_allowed best x) xs

-- The executor with the best votes, a single one first.
unfoldable pub by_votes : ℕ → List Candidate → Option Candidate
unfolding best_candidate
by_votes max_allowed [] = none
by_votes max_allowed (x ∷ []) =
    if ltb x.load max_allowed then some x else best_candidate max_allowed none (x ∷ [])
by_votes max_allowed (x ∷ y ∷ xs) = best_candidate max_allowed none (x ∷ y ∷ xs)

-- `min_by_key` over the loads from the index on: the first of the least loads.
unfoldable pub least_loaded_from : ℕ → List ℕ → Option (ℕ × ℕ)
least_loaded_from i [] = none
least_loaded_from i (load ∷ loads) =
    let rest = least_loaded_from (suc i) loads in
    elim rest [
      | none ↦ some (i, load)
      | some (j, least) ↦ if ltb least load then some (j, least) else some (i, load)
    ]

-- `none` is a panic.
unfoldable pub choose_executor : ℕ → List ℕ → Map ℕ ℕ → Option ℕ
unfolding candidates by_votes least_loaded_from
choose_executor max_allowed loads votes = elim (candidates loads votes) [
  | none ↦ none
  | some xs ↦ elim (by_votes max_allowed xs) [
    | some x ↦ some x.executor
    | none ↦ elim (least_loaded_from 0 loads) [ none ↦ none | some (i, load) ↦ some i ]
  ]
]

-- `current_loads[target] += 1`.
unfoldable pub add_load : ℕ → List ℕ → List ℕ
add_load i [] = []
add_load zero (load ∷ loads) = (load + 1) ∷ loads
add_load (suc i) (load ∷ loads) = load ∷ add_load i loads

unfoldable pub update_owners : ℕ → List ℕ → Map ℕ ℕ → Map ℕ ℕ
unfolding insert
update_owners target [] m = m
update_owners target (account ∷ accounts) m =
    update_owners target accounts (insert account target m)

unfoldable pub zero_loads : ℕ → List ℕ
zero_loads zero = []
zero_loads (suc n) = 0 ∷ zero_loads n

-- The new scheduler: the transactions with their executors, and the loads. `none` is a panic.
unfoldable pub schedule_new :
    ℕ → Partition → Map ℕ ℕ → List ℕ → List (List ℕ) → Option (List Scheduled × List ℕ)
unfolding parse_transaction_header extract_required_accounts tally_votes choose_executor add_load
    update_owners
schedule_new max_allowed partition local_updates loads [] = some ([], loads)
schedule_new max_allowed partition local_updates loads (tx ∷ txs) =
    elim (parse_transaction_header tx) [
      | none ↦ schedule_new max_allowed partition local_updates loads txs
      | some header ↦ elim (extract_required_accounts tx) [
        | none ↦ none
        | some required ↦ elim (tally_votes local_updates partition required []) [
          | none ↦ none
          | some votes ↦ elim (choose_executor max_allowed loads votes) [
            | none ↦ none
            | some target ↦
                elim (schedule_new max_allowed partition
                  (update_owners target required local_updates) (add_load target loads) txs) [
                    | none ↦ none
                    | some (later, last) ↦ some (
                      record {
                        tx_bytes = tx;
                        header = header;
                        required_accounts = required;
                        target = target;
                      }
                          ∷ later,
                      last,
                    )
                  ]
          ]
        ]
      ]
    ]

-- The old scheduler: the owner of the first account. `none` is a panic.
unfoldable pub schedule_old : Partition → List (List ℕ) → Option (List Scheduled)
unfolding parse_transaction_header extract_required_accounts get_executor_id_by_partition
schedule_old partition [] = some []
schedule_old partition (tx ∷ txs) =
    let rest = schedule_old partition txs in
    elim (parse_transaction_header tx) [
      | none ↦ rest
      | some header ↦ elim (extract_required_accounts tx) [
        | none ↦ none
        | some [] ↦ none
        | some (account ∷ accounts) ↦ elim (get_executor_id_by_partition partition account) [
          | none ↦ none
          | some target ↦ elim rest [
            | none ↦ none
            | some later ↦ some (
                record {
                  tx_bytes = tx;
                  header = header;
                  required_accounts = account ∷ accounts;
                  target = target;
                }
                ∷ later)
          ]
        ]
      ]
    ]
