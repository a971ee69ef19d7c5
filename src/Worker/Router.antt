-- ===== src/Worker/Router.antt =====
-- worker/src/router.rs and worker/src/executor.rs: committed batches go from the store to all executors
-- of the validator, and an executor hands them to its `BatchExecutor`.
use mathlib.Core.List.{Memᴰ}
use dag_bft_sigmod.Base.{
  ℕ, ◌<◌, Option, none, some, List, [], ◌∷◌, ◌≡◌, inl, inr, ap, arith, if◌then◌else◌, length,
  is_empty, nat_eq, Memᴰ-cons,
}
use dag_bft_sigmod.Base.Maps.{Map, lookup, insert}
use dag_bft_sigmod.Config.{PublicKey, SocketAddr, ExecutorId, ExecutorAddresses, Committee}
use dag_bft_sigmod.Store.{DbResult, ok, err}
use dag_bft_sigmod.Primary.Errors.{Digest}
use dag_bft_sigmod.Worker.BatchMaker.{Batch}
use dag_bft_sigmod.Worker.Messages.{batch, batch_request, WorkerCodec}
use dag_bft_sigmod.Worker.BatchExecutor.{BatchExecutor, ExecutorSetup}
use dag_bft_sigmod.Worker.BatchExecutor.Sequence.{process_execute, default_digest, max_buffered}
use dag_bft_sigmod.Worker.BatchExecutor.Sequence.InOrder.{Arrival}

pub record ExecuteCommand : Type 0 where
  pub digest : Digest
  pub sequence : ℕ

pub data WorkerToExecutorMessage : Type 0 where
  execute : Digest → ℕ → Batch → WorkerToExecutorMessage
  sequence_sync : ℕ → WorkerToExecutorMessage

unfoldable pub worker_to_executor_addresses :
    Map ExecutorId ExecutorAddresses → Map ExecutorId SocketAddr
worker_to_executor_addresses [] = []
worker_to_executor_addresses ((eid, addr) ∷ executors) =
    (eid, addr.worker_to_executor) ∷ worker_to_executor_addresses executors

-- `Router::spawn`: none for an unknown validator.
unfoldable pub executor_addresses : Committee → PublicKey → Map ExecutorId SocketAddr
unfolding lookup worker_to_executor_addresses
executor_addresses committee name = elim (lookup name committee.authorities) [
  | none ↦ []
  | some authority ↦ worker_to_executor_addresses authority.executors
]

unfoldable pub decode_batch : WorkerCodec → List ℕ → Option Batch
decode_batch codec bytes = elim (codec.deserialize bytes) [
  | some (batch b) ↦ some b
  | some (batch_request _ _) ↦ none
  | none ↦ none
]

-- The batch of a command: what the store has, or else what it is notified of. `none` drops the command.
unfoldable pub read_batch : WorkerCodec → DbResult → DbResult → Option Batch
unfolding decode_batch
read_batch codec read notified = elim read [
  | ok (some bytes) ↦ decode_batch codec bytes
  | ok none ↦ elim notified [
    | ok (some bytes) ↦ decode_batch codec bytes
    | ok none ↦ none
    | err ↦ none
  ]
  | err ↦ none
]

unfoldable pub message_for : ExecuteCommand → Batch → WorkerToExecutorMessage
message_for cmd transactions =
    if is_empty transactions
    then sequence_sync cmd.sequence
    else execute cmd.digest cmd.sequence transactions

unfoldable pub broadcast_to :
    Map ExecutorId SocketAddr
    → WorkerToExecutorMessage
    → List (SocketAddr × WorkerToExecutorMessage)
broadcast_to [] message = []
broadcast_to ((eid, addr) ∷ addresses) message = (addr, message) ∷ broadcast_to addresses message

-- One turn of `Router::run`: what is sent.
unfoldable pub handle_command :
    WorkerCodec
    → Map ExecutorId SocketAddr
    → ExecuteCommand
    → DbResult
    → DbResult
    → List (SocketAddr × WorkerToExecutorMessage)
unfolding read_batch message_for broadcast_to
handle_command codec addresses cmd read notified = elim (read_batch codec read notified) [
  | none ↦ []
  | some transactions ↦ broadcast_to addresses (message_for cmd transactions)
]

-- `ExecutorReceiverHandler::dispatch`: what the `BatchExecutor` receives.
unfoldable pub receive_from_router : WorkerToExecutorMessage → Arrival
receive_from_router (execute digest sequence transactions) = record {
  digest = digest;
  sequence = sequence;
  transactions = transactions;
}
receive_from_router (sequence_sync sequence) = record {
  digest = default_digest;
  sequence = sequence;
  transactions = [];
}

broadcast_to_same :
    (addresses : Map ExecutorId SocketAddr) (message : WorkerToExecutorMessage)
    (sent : SocketAddr × WorkerToExecutorMessage)
    → Memᴰ sent (broadcast_to addresses message)
    → sent.1 ≡ message
unfolding broadcast_to
broadcast_to_same [] message sent m = elim m [ ]
broadcast_to_same ((eid, addr) ∷ addresses) message sent m = elim (Memᴰ-cons m) [
  | inl e ↦ ap (λ x. x.1) e
  | inr later ↦ broadcast_to_same addresses message sent later
]

receive_message_for-process_execute :
    (cmd : ExecuteCommand) (txs : Batch) (setup : ExecutorSetup) (s : BatchExecutor)
    → s.next_sequence < cmd.sequence
    → length s.buffer < max_buffered
    → let b = receive_from_router (message_for cmd txs) in
      process_execute setup b.digest b.sequence b.transactions s ≡ (
        if is_empty txs
        then none
        else some (record s {
          buffer =
              insert cmd.sequence (record { digest = cmd.digest; transactions = txs }) s.buffer;
        }))
unfolding receive_from_router message_for process_execute
receive_message_for-process_execute cmd [] setup s later room = ground arith
receive_message_for-process_execute cmd (tx ∷ txs) setup s later room = ground arith

-- A committed batch that reaches an executor, with room in its buffer, before its turn: a batch with
-- transactions is buffered, and an empty batch makes the executor panic.
pub handle_command-process_execute :
    (codec : WorkerCodec) (addresses : Map ExecutorId SocketAddr) (cmd : ExecuteCommand)
    (read notified : DbResult) (txs : Batch) (sent : SocketAddr × WorkerToExecutorMessage)
    (setup : ExecutorSetup) (s : BatchExecutor)
    → read_batch codec read notified ≡ some txs
    → Memᴰ sent (handle_command codec addresses cmd read notified)
    → s.next_sequence < cmd.sequence
    → length s.buffer < max_buffered
    → let b = receive_from_router sent.1 in
      process_execute setup b.digest b.sequence b.transactions s ≡ (
        if is_empty txs
        then none
        else some (record s {
          buffer =
              insert cmd.sequence (record { digest = cmd.digest; transactions = txs }) s.buffer;
        }))
unfolding handle_command
handle_command-process_execute codec addresses cmd read notified txs sent setup s known m later
      room =
    let same : sent.1 ≡ message_for cmd txs =
      broadcast_to_same addresses (message_for cmd txs) sent (rw (handle_command, known) at m) in
    rw same (receive_message_for-process_execute cmd txs setup s later room)
