-- ===== src/Worker/Messages.antt =====
-- worker/src/worker.rs: the messages between workers, and what the network receivers do with a message.
-- bincode and the hash function are not part of these files: a `WorkerCodec` gives them.
use dag_bft_sigmod.Base.{ℕ, Option, none, some, List, if◌then◌else◌, ltb, length}
use dag_bft_sigmod.Config.{PublicKey}
use dag_bft_sigmod.Primary.Errors.{Digest}
use dag_bft_sigmod.Worker.BatchMaker.{Transaction, Batch}

pub data WorkerMessage : Type 0 where
  batch : Batch → WorkerMessage
  batch_request : List Digest → PublicKey → WorkerMessage

-- bincode on the messages between workers, SHA-512 cut to 32 bytes, and `Digest::to_vec`.
pub record WorkerCodec : Type 0 where
  pub deserialize : List ℕ → Option WorkerMessage
  pub serialize : WorkerMessage → List ℕ
  pub hash : List ℕ → Digest
  pub to_vec : Digest → List ℕ

-- Where a message goes.
pub data Received : Type 0 where
  to_batch_maker : Transaction → Received
  to_processor : List ℕ → Received
  to_helper : List Digest → PublicKey → Received
  dropped : Received

-- `TxReceiverHandler::dispatch`; `none` is a panic.
unfoldable pub receive_transaction : List ℕ → Option Received
receive_transaction message =
    if ltb (length message) 10 then none else some (to_batch_maker message)

-- `WorkerReceiverHandler::dispatch`, without its acknowledgement.
unfoldable pub receive_worker_message : WorkerCodec → List ℕ → Received
receive_worker_message codec serialized = elim (codec.deserialize serialized) [
  | some (batch b) ↦ to_processor serialized
  | some (batch_request missing requestor) ↦ to_helper missing requestor
  | none ↦ dropped
]
