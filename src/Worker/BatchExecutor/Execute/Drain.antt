-- ===== src/Worker/BatchExecutor/Execute/Drain.antt =====
-- worker/src/batch_executor.rs: the drain of the queues ends.
use dag_bft_sigmod.Base.{
  ℕ, zero, suc, ◌+◌, ◌*◌, ◌≤◌, ◌<◌, Bool, Option, none, some, List, [], ◌∷◌, ◌++◌, ◌≡◌, ◌≢◌, inl,
  inr, ap, arith, length, length-append, contains, ◌==◌, nat_eq, Option-cases, Bool-cases,
}
use dag_bft_sigmod.Base.Maps.{lookup, insert, remove}
use dag_bft_sigmod.Primary.Errors.{Digest}
use dag_bft_sigmod.Worker.Transaction.{TxId, TransactionHeader, parse_smallbank_payload}
use dag_bft_sigmod.Worker.BatchExecutor.{
  Execution, ExecutorSetup, PendingTransaction, TransactionLocality, local, migrate_out, migrate_in,
  others, tx_id_beq,
}
use dag_bft_sigmod.Worker.BatchExecutor.Queues.{
  Queues, get_executable_queue_head, pop_each, pop_transaction_from_accounts, remove_if_empty,
  remove_empty,
}
use dag_bft_sigmod.Worker.BatchExecutor.Execute.{
  apply_transaction, execute_single_local_transaction, execute_migrate_out, send_account,
  extend_worklist, run_head, exhausted, drain, queue_turns, all_turns,
}

all_turns-remove : (k : ℕ) (queues : Queues) → all_turns (remove k queues) ≤ all_turns queues
unfolding all_turns remove
all_turns-remove k [] = omega arith
all_turns-remove k ((j, q) ∷ queues) = ground (arith, all_turns-remove k queues)

all_turns-insert :
    (k : ℕ) (q q' : List PendingTransaction) (queues : Queues)
    → lookup k queues ≡ some q
    → all_turns (insert k q' queues) + queue_turns q ≡ all_turns queues + queue_turns q'
unfolding all_turns insert lookup
all_turns-insert k q q' [] h = absurd (cc)
all_turns-insert k q q' ((j, x) ∷ queues) h = elim (Bool-cases (j == k)) [
  | inl e ↦
      let same : queue_turns x ≡ queue_turns q = ap queue_turns (ground arith) in
      rw e (omega (arith, same))
  | inr e ↦ rw e (omega (arith, all_turns-insert k q q' queues (ground arith)))
]

all_turns-remove_if_empty :
    (k : ℕ) (queues : Queues) → all_turns (remove_if_empty k queues) ≤ all_turns queues
unfolding remove_if_empty
all_turns-remove_if_empty k queues = elim (Option-cases (lookup k queues)) [
  | inl n ↦ ground arith
  | inr (q, l) ↦ ground (arith, all_turns-remove k queues)
]

all_turns-remove_empty :
    (accounts : List ℕ) (queues : Queues)
    → all_turns (remove_empty accounts queues) ≤ all_turns queues
unfolding remove_empty
all_turns-remove_empty [] queues = omega arith
all_turns-remove_empty (k ∷ accounts) queues = omega (
  arith,
  all_turns-remove_empty accounts (remove_if_empty k queues),
  all_turns-remove_if_empty k queues,
)

-- The turns that a popped transaction stands for.
unfoldable turns_of : Option PendingTransaction → ℕ
turns_of none = 0
turns_of (some tx) = suc (2 * length tx.required_accounts)

all_turns-pop_each :
    (tx_id : TxId) (accounts : List ℕ) (queues queues' : Queues)
    (popped last : Option PendingTransaction)
    → pop_each tx_id accounts queues popped ≡ some (queues', last)
    → all_turns queues' + turns_of last ≤ all_turns queues + turns_of popped
unfolding pop_each queue_turns turns_of
all_turns-pop_each tx_id [] queues queues' popped last h =
    let same : queues ≡ queues' = ground arith in
    let same' : popped ≡ last = ground arith in omega (arith, ap all_turns same, ap turns_of same')
all_turns-pop_each tx_id (k ∷ accounts) queues queues' popped last h =
    elim (Option-cases (lookup k queues)) [
      | inl n ↦ absurd (ground arith)
      | inr ([], l) ↦ absurd (ground arith)
      | inr (tx ∷ q, l) ↦ elim (Bool-cases (tx_id_beq tx.tx_header.id tx_id)) [
        | inl e ↦
            let rest =
              all_turns-pop_each tx_id accounts (insert k q queues) queues' (some tx) last
                (ground arith) in
            omega (arith, rest, all_turns-insert k (tx ∷ q) q queues l)
        | inr e ↦ absurd (ground arith)
      ]
    ]

all_turns-pop :
    (queues queues' : Queues) (accounts : List ℕ) (tx_id : TxId) (tx : PendingTransaction)
    → pop_transaction_from_accounts queues accounts tx_id ≡ some (queues', tx)
    → suc (all_turns queues' + 2 * length tx.required_accounts) ≤ all_turns queues
unfolding pop_transaction_from_accounts turns_of
all_turns-pop queues queues' accounts tx_id tx h =
    elim (Option-cases (pop_each tx_id accounts queues none)) [
      | inl n ↦ absurd (ground arith)
      | inr ((rest, none), e) ↦ absurd (ground arith)
      | inr ((rest, some x), e) ↦
          let same : remove_empty accounts rest ≡ queues' = ground arith in
          let same' : x ≡ tx = ground arith in
          omega (
            arith,
            all_turns-pop_each tx_id accounts queues rest none (some x) e,
            all_turns-remove_empty accounts rest,
            ap all_turns same,
            ap (λ t. length t.required_accounts) same',
          )
    ]

length-extend_worklist :
    (worklist accounts : List ℕ)
    → length (extend_worklist worklist accounts) ≤ length worklist + length accounts
unfolding extend_worklist
length-extend_worklist worklist [] = omega arith
length-extend_worklist worklist (k ∷ accounts) = elim (Bool-cases (contains worklist k)) [
  | inl e ↦ rw e (omega (arith, length-extend_worklist worklist accounts))
  | inr e ↦ rw e (
      omega (
        arith,
        length-extend_worklist (worklist ++ (k ∷ [])) accounts,
        length-append worklist (k ∷ []),
      ))
]

execute_migrate_out_queues :
    (header : TransactionHeader) (accounts : List ℕ) (dest : ℕ) (st st' : Execution)
    → execute_migrate_out header accounts dest st ≡ some st'
    → st'.pending_queues ≡ st.pending_queues
unfolding execute_migrate_out
execute_migrate_out_queues header [] dest st st' h = ground arith
execute_migrate_out_queues header (k ∷ accounts) dest st st' h =
    elim (Option-cases (lookup k st.account_store)) [
      | inl n ↦ absurd (ground arith)
      | inr (a, l) ↦
          execute_migrate_out_queues header accounts dest (send_account header.id k a dest st) st'
            (ground arith)
    ]

execute_single_queues :
    (setup : ExecutorSetup) (digest : Digest) (bytes : List ℕ) (header : TransactionHeader)
    (st st' : Execution) (success : Bool)
    → execute_single_local_transaction setup digest bytes header st ≡ some (st', success)
    → st'.pending_queues ≡ st.pending_queues
unfolding execute_single_local_transaction
execute_single_queues setup digest bytes header st st' success h =
    elim (Option-cases (parse_smallbank_payload bytes)) [
      | inl n ↦ ground arith
      | inr (tx, e) ↦ elim (Option-cases (apply_transaction setup.float tx st.account_store)) [
        | inl n ↦ absurd (ground arith)
        | inr ((store, success'), a) ↦ ground arith
      ]
    ]

abbrev with_queues : Queues → Execution → Execution
with_queues queues st = record st { pending_queues = queues }

abbrev turns : List ℕ → Execution → ℕ
turns worklist st = 2 * length worklist + all_turns st.pending_queues

run_head-turns :
    (setup : ExecutorSetup) (tx_id : TxId) (required : List ℕ) (locality : TransactionLocality)
    (worklist worklist' : List ℕ) (st st' : Execution)
    → run_head setup tx_id required locality worklist st ≡ some (st', worklist')
    → turns worklist' st' < turns worklist st
unfolding run_head
run_head-turns setup tx_id required (migrate_in accounts) worklist worklist' st st' h =
    absurd (ground arith)
run_head-turns setup tx_id required (others target) worklist worklist' st st' h =
    absurd (ground arith)
run_head-turns setup tx_id required (migrate_out accounts other dest) worklist worklist' st st' h =
    elim (Option-cases (pop_transaction_from_accounts st.pending_queues accounts tx_id)) [
      | inl n ↦ absurd (ground arith)
      | inr ((queues, tx), p) ↦
          elim (Option-cases
            (execute_migrate_out tx.tx_header accounts dest (with_queues queues st))) [
              | inl n ↦ absurd (ground arith)
              | inr (t, e) ↦
                  let same : t ≡ st' = ground arith in
                  let same' : worklist ≡ worklist' = ground arith in
                  omega (
                    arith,
                    all_turns-pop st.pending_queues queues accounts tx_id tx p,
                    ap all_turns (
                        execute_migrate_out_queues tx.tx_header accounts dest
                          (with_queues queues st) t e),
                    ap (λ x. all_turns x.pending_queues) same,
                    ap length same',
                  )
            ]
    ]
run_head-turns setup tx_id required local worklist worklist' st st' h =
    elim (Option-cases (pop_transaction_from_accounts st.pending_queues required tx_id)) [
      | inl n ↦ absurd (ground arith)
      | inr ((queues, tx), p) ↦
          elim (Option-cases (
            execute_single_local_transaction setup tx.batch_digest tx.tx_bytes tx.tx_header
              (with_queues queues st))) [
                | inl n ↦ absurd (ground arith)
                | inr ((t, success), e) ↦
                    let same : t ≡ st' = ground arith in
                    let same' : extend_worklist worklist tx.required_accounts ≡ worklist' =
                      ground arith in
                    let kept =
                      execute_single_queues setup tx.batch_digest tx.tx_bytes tx.tx_header
                        (with_queues queues st) t success e in
                    omega (
                      arith,
                      all_turns-pop st.pending_queues queues required tx_id tx p,
                      ap all_turns kept,
                      ap (λ x. all_turns x.pending_queues) same,
                      ap length same',
                      length-extend_worklist worklist tx.required_accounts,
                    )
              ]
    ]

abbrev current_turns : Option ℕ → ℕ
current_turns none = 0
current_turns (some account) = 1

-- The drain with more fuel than the worklist and the queues can take ends or panics.
drain-not_exhausted :
    (fuel : ℕ) (setup : ExecutorSetup) (current : Option ℕ) (worklist : List ℕ) (st : Execution)
    → current_turns current + turns worklist st < fuel
    → drain fuel setup current worklist st ≢ exhausted
unfolding drain
drain-not_exhausted zero setup current worklist st h = absurd (omega arith)
drain-not_exhausted (suc fuel) setup none [] st h = λ e. absurd (cc)
drain-not_exhausted (suc fuel) setup none (k ∷ worklist) st h =
    drain-not_exhausted fuel setup (some k) worklist st (omega arith)
drain-not_exhausted (suc fuel) setup (some k) worklist st h =
    elim (Option-cases (get_executable_queue_head st.account_store st.pending_queues k)) [
      | inl n ↦ rw (drain, n) (λ e. cc)
      | inr (none, g) ↦
          rw (drain, g)
            (drain-not_exhausted fuel setup none worklist
              (with_queues (remove_if_empty k st.pending_queues) st)
              (omega (arith, all_turns-remove_if_empty k st.pending_queues)))
      | inr (some head, g) ↦
          elim (Option-cases
            (run_head setup head.tx_id head.required_accounts head.locality worklist st)) [
              | inl n ↦ rw (drain, g, n) (λ e. cc)
              | inr ((st', worklist'), r) ↦
                  rw (drain, g, r)
                    (drain-not_exhausted fuel setup (some k) worklist' st' (
                      omega (
                        arith,
                        run_head-turns setup head.tx_id head.required_accounts head.locality
                            worklist worklist' st st' r,
                      )))
            ]
    ]

-- The drain of the queues ends, in success or in a panic, in any state: within more turns than twice
-- the number of the unlocked accounts, with one for each queued transaction and two for each account
-- that the transaction requires.
pub drain_pending_queues-ends :
    (fuel : ℕ) (setup : ExecutorSetup) (unlocked : List ℕ) (st : Execution)
    → 2 * length unlocked + all_turns st.pending_queues < fuel
    → drain fuel setup none (extend_worklist [] unlocked) st ≢ exhausted
drain_pending_queues-ends fuel setup unlocked st h =
    drain-not_exhausted fuel setup none (extend_worklist [] unlocked) st
      (omega (arith, length-extend_worklist [] unlocked))
