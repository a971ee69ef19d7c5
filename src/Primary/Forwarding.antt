-- ===== src/Primary/Forwarding.antt =====
-- primary/src/certificate_waiter.rs, primary/src/helper.rs, primary/src/payload_receiver.rs, and the
-- receivers of primary/src/primary.rs: the tasks that pass values on.
use dag_bft_sigmod.Base.{ℕ, Option, none, some, List, [], ◌∷◌, map, nat_eq}
use dag_bft_sigmod.Base.Maps.{Map}
use dag_bft_sigmod.Config as Config
use dag_bft_sigmod.Config.{PublicKey, WorkerId, SocketAddr}
use dag_bft_sigmod.Store.{Key, Value}
use dag_bft_sigmod.Primary.Errors.{Digest, DagResult, ok, err}
use dag_bft_sigmod.Primary.Messages.{Certificate}
use dag_bft_sigmod.Primary.Node.{
  Node, PrimaryMessage, header, vote, certificate, certificates_request, digest_key, payload_key,
}
use dag_bft_sigmod.Worker.Processor.{WorkerPrimaryMessage, our_batch, others_batch}

-- `CertificateWaiter`: the keys to wait for, and what comes of the wait; `none` is the panic that ends
-- the node.
abbrev pub awaited_parents : Certificate → List Key
awaited_parents x = map digest_key x.header.parents

unfoldable pub on_parents_ready : DagResult Certificate → Option Certificate
on_parents_ready (ok x) = some x
on_parents_ready (err e) = none

-- Where a message of another primary goes.
pub data PrimaryReceived : Type 0 where
  to_helper : List Digest → PublicKey → PrimaryReceived
  to_core : PrimaryMessage → PrimaryReceived

-- `PrimaryReceiverHandler::dispatch` on a message that can be read.
unfoldable pub receive_primary_message : PrimaryMessage → PrimaryReceived
receive_primary_message (certificates_request missing requestor) = to_helper missing requestor
receive_primary_message (header h) = to_core (header h)
receive_primary_message (vote v) = to_core (vote v)
receive_primary_message (certificate x) = to_core (certificate x)

-- Where a message of a worker goes.
pub data WorkerReceived : Type 0 where
  to_proposer : Digest → WorkerId → Map ℕ ℕ → ℕ → WorkerReceived
  to_payload_receiver : Digest → WorkerId → Map ℕ ℕ → WorkerReceived

-- `WorkerReceiverHandler::dispatch` on a message that can be read.
unfoldable pub receive_workers_message : WorkerPrimaryMessage → WorkerReceived
receive_workers_message (our_batch digest id counts delay) = to_proposer digest id counts delay
receive_workers_message (others_batch digest id counts) = to_payload_receiver digest id counts

module _ {S : Type 0} (node : Node S) (store : S) where
  -- The replies of `Helper`, with `none` for the panic on a certificate that cannot be read.
  unfoldable pub reply_certificates :
      SocketAddr → List Digest → Option (List (SocketAddr × PrimaryMessage))
  reply_certificates address [] = some []
  reply_certificates address (digest ∷ digests) =
      let rest = reply_certificates address digests in
      elim (node.backend.read store (digest_key digest)) [
        | ok (some bytes) ↦ elim (node.codec.deserialize_certificate bytes) [
          | none ↦ none
          | some x ↦ elim rest [
            | none ↦ none
            | some later ↦ some ((address, certificate x) ∷ later)
          ]
        ]
        | ok none ↦ rest
        | err e ↦ rest
      ]

  unfoldable pub help_primary :
      List Digest → PublicKey → Option (List (SocketAddr × PrimaryMessage))
  unfolding Config.primary reply_certificates
  help_primary digests origin = elim (Config.primary node.committee origin) [
    | Config.ok addresses ↦ reply_certificates addresses.primary_to_primary digests
    | Config.err e ↦ some []
  ]

  -- `PayloadReceiver::run`, with bincode on the counts.
  unfoldable pub store_payload : (Map ℕ ℕ → Value) → Digest → WorkerId → Map ℕ ℕ → S
  store_payload serialize_counts digest worker_id account_counts =
      node.backend.write store (payload_key digest worker_id) (serialize_counts account_counts)
