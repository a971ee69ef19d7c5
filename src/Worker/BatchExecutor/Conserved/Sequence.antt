-- ===== src/Worker/BatchExecutor/Conserved/Sequence.antt =====
-- worker/src/batch_executor.rs: an executor neither loses nor doubles an account over a sequence of
-- batches.
use dag_bft_sigmod.Base.{
  ℕ, ◌+◌, ◌-◌, some, List, [], ◌∷◌, ◌++◌, ◌≡◌, inl, inr, refl, subst, arith, leb, nat_eq,
  Bool-cases, Option-cases, length,
}
use dag_bft_sigmod.Primary.Errors.{Digest}
use dag_bft_sigmod.Worker.BatchExecutor.{Execution, ExecutorSetup, BatchExecutor, feedback}
use dag_bft_sigmod.Worker.BatchExecutor.Scheduler.{Scheduled}
use dag_bft_sigmod.Worker.BatchExecutor.Queues.{update_queue_depths}
use dag_bft_sigmod.Worker.BatchExecutor.Transfers.{process_incoming_transfers}
use dag_bft_sigmod.Worker.BatchExecutor.Batches.{
  scheduled_by, parse_and_schedule_batch_transactions, localities_of, execute_each, execute_batch,
}
use dag_bft_sigmod.Worker.BatchExecutor.Sequence.{
  execute_next, send_feedback_if_needed, feedback_interval,
}
use dag_bft_sigmod.Worker.BatchExecutor.Sequence.InOrder.{
  Arrival, InOrder, start, next, process_all, forget_buffer,
}
use dag_bft_sigmod.Worker.BatchExecutor.Sequence.Refinement.{process_all-refines}
use dag_bft_sigmod.Worker.BatchExecutor.Conserved.{
  count_sent, held, IsSingle, Keeps, Keeps-refl, Keeps-trans, Keeps-same,
}
use dag_bft_sigmod.Worker.BatchExecutor.Conserved.Accounts.{count_sent-append}
use dag_bft_sigmod.Worker.BatchExecutor.Conserved.Transfers.{process_incoming_transfers-Keeps}
use dag_bft_sigmod.Worker.BatchExecutor.Conserved.Batches.{execute_each-Keeps}

parse_and_schedule-Keeps :
    (k : ℕ) (setup : ExecutorSetup) (txs : List (List ℕ)) (st st' : Execution)
    (parsed : List Scheduled)
    → parse_and_schedule_batch_transactions setup txs st ≡ some (st', parsed)
    → Keeps k st st'
unfolding parse_and_schedule_batch_transactions
parse_and_schedule-Keeps k setup txs st st' parsed h =
    elim (Option-cases (scheduled_by setup txs st)) [
      | inl n ↦ absurd (ground arith)
      | inr (found, e) ↦
          let counted : Execution = record st {
            scheduled_tx_count = st.scheduled_tx_count + length found;
          } in
          let same : counted ≡ st' = ground arith in
          subst (Keeps k st) same (Keeps-same k st counted refl refl refl refl)
    ]

pub execute_batch-Keeps :
    (k : ℕ) (setup : ExecutorSetup) (digest : Digest) (txs : List (List ℕ)) (st st' : Execution)
    → execute_batch setup digest txs st ≡ some st'
    → Keeps k st st'
unfolding execute_batch
execute_batch-Keeps k setup digest txs st st' h =
    elim (Option-cases (parse_and_schedule_batch_transactions setup txs st)) [
      | inl n ↦ absurd (ground arith)
      | inr ((a, parsed), p) ↦
          elim (Option-cases (localities_of setup.executor_id parsed a.states_schedule_partition)) [
            | inl n ↦ absurd (ground arith)
            | inr ((partition, localities), l) ↦
                let b : Execution = record a { states_schedule_partition = partition } in
                elim (Option-cases (execute_each setup digest localities b)) [
                  | inl n ↦ absurd (ground arith)
                  | inr (c, e) ↦ elim (Option-cases (process_incoming_transfers setup c)) [
                    | inl n ↦ absurd (ground arith)
                    | inr (d, i) ↦
                        let last : Execution = record d {
                          lock_stats = update_queue_depths d.lock_stats d.pending_queues;
                        } in
                        let same : last ≡ st' = ground arith in
                        let up_to_b =
                          Keeps-trans k st a b (parse_and_schedule-Keeps k setup txs st a parsed p)
                            (Keeps-same k a b refl refl refl refl) in
                        let up_to_c =
                          Keeps-trans k st b c up_to_b
                            (execute_each-Keeps k setup digest localities b c e) in
                        let up_to_d =
                          Keeps-trans k st c d up_to_c
                            (process_incoming_transfers-Keeps k setup c d i) in
                        subst (Keeps k st) same (
                          Keeps-trans k st d last up_to_d (Keeps-same k d last refl refl refl refl))
                  ]
                ]
          ]
    ]

send_feedback-Keeps :
    (k : ℕ) (setup : ExecutorSetup) (s : BatchExecutor)
    → Keeps k s.execution (send_feedback_if_needed setup s).execution
unfolding send_feedback_if_needed count_sent
send_feedback-Keeps k setup s =
    elim (Bool-cases (leb (s.last_feedback_sent + feedback_interval) (s.next_sequence - 1))) [
      | inl e ↦
          let told : Execution = record s.execution {
            sent = s.execution.sent ++ (feedback setup.executor_id (s.next_sequence - 1) ∷ []);
          } in
          rw e (
            Keeps-same k s.execution told refl refl refl (
              omega (
                arith,
                count_sent-append k s.execution.sent
                    (feedback setup.executor_id (s.next_sequence - 1) ∷ []),
              )))
      | inr e ↦ rw e (Keeps-refl k s.execution)
    ]

execute_next-Keeps :
    (k : ℕ) (setup : ExecutorSetup) (digest : Digest) (txs : List (List ℕ)) (s s' : BatchExecutor)
    → execute_next setup digest txs s ≡ some s'
    → Keeps k s.execution s'.execution
unfolding execute_next
execute_next-Keeps k setup digest txs s s' h =
    elim (Option-cases (execute_batch setup digest txs s.execution)) [
      | inl n ↦ absurd (ground arith)
      | inr (st, e) ↦
          let executed : BatchExecutor = record s {
            execution = st;
            next_sequence = s.next_sequence + 1;
          } in
          let same : send_feedback_if_needed setup executed ≡ s' = ground arith in
          subst (λ t. Keeps k s.execution t.execution) same
            (Keeps-trans k s.execution st (send_feedback_if_needed setup executed).execution
              (execute_batch-Keeps k setup digest txs s.execution st e)
              (send_feedback-Keeps k setup executed))
    ]

InOrder-Keeps :
    (k : ℕ) (setup : ExecutorSetup) (received : List Arrival) (s s' : BatchExecutor)
    → InOrder setup received s s'
    → Keeps k s.execution s'.execution
InOrder-Keeps k setup received s _ start = Keeps-refl k s.execution
InOrder-Keeps k setup received s _ (next b t u run m at e) =
    Keeps-trans k s.execution t.execution u.execution (InOrder-Keeps k setup received s t run)
      (execute_next-Keeps k setup b.digest b.transactions t u e)

-- An executor that starts with an empty buffer and executes any batches with no panic, and an account
-- that it has at most once, in its store or among the accounts that arrive: it has the account at most
-- once afterwards, and how often it has it and how often it has sent it away sum to the same as before.
-- It neither loses nor doubles an account.
pub process_all-keeps_accounts :
    (k : ℕ) (setup : ExecutorSetup) (arrivals : List Arrival) (s s' : BatchExecutor)
    → s.buffer ≡ []
    → process_all setup arrivals s ≡ some s'
    → IsSingle k s.execution
    → IsSingle k s'.execution
      × (held k s'.execution + count_sent k s'.execution.sent
          ≡ held k s.execution + count_sent k s.execution.sent)
process_all-keeps_accounts k setup arrivals s s' empty h single =
    let (run, _, _) = process_all-refines setup arrivals s s' empty h in
    let (u, e, m) =
      InOrder-Keeps k setup arrivals (forget_buffer s) (forget_buffer s') run single in
    ((omega (arith, single.0), u), e)
