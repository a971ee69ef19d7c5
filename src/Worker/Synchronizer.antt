-- ===== src/Worker/Synchronizer.antt =====
-- worker/src/synchronizer.rs: the requests for missing batches, and the committed batches. The pool of
-- futures is outside: waits and cancellations are outputs, results are inputs; so is the clock.
pub mod Cleanup
use dag_bft_sigmod.Base.{
  ℕ, ◌+◌, ◌-◌, ◌*◌, Bool, true, false, not, Option, none, some, List, [], ◌∷◌, ◌++◌, if◌then◌else◌,
  ltb, leb, is_empty, nat_eq, map,
}
use dag_bft_sigmod.Base.Maps.{Map, lookup, insert, remove, retain, upsert, contains_key}
use dag_bft_sigmod.Config.{
  PublicKey, SocketAddr, WorkerId, WorkerAddresses, Committee, ok, err, worker, others_workers,
  home_validator, client_reply,
}
use dag_bft_sigmod.Store as Store
use dag_bft_sigmod.Primary.Errors.{Digest}
use dag_bft_sigmod.Worker.Messages.{WorkerMessage, batch, batch_request, WorkerCodec}

-- What does not change.
pub record SynchronizerSetup : Type 0 where
  pub name : PublicKey
  pub id : WorkerId
  pub committee : Committee
  pub gc_depth : ℕ
  pub sync_retry_delay : ℕ
  pub sync_retry_nodes : ℕ

-- A request: the round and the time at which it was made.
pub record PendingRequest : Type 0 where
  pub round : ℕ
  pub timestamp : ℕ

pub record Synchronizer : Type 0 where
  pub round : ℕ
  pub pending : Map Digest PendingRequest
  pub committed_batches : Map ℕ (List Digest)

abbrev pub new_synchronizer : Synchronizer
new_synchronizer = record { round = 0; pending = []; committed_batches = [] }

pub data SynchronizerOutput : Type 0 where
  send : SocketAddr → WorkerMessage → SynchronizerOutput
  lucky_broadcast : List SocketAddr → WorkerMessage → ℕ → SynchronizerOutput
  wait_for : Digest → SynchronizerOutput
  cancel : Digest → SynchronizerOutput
  delete_batch : Digest → SynchronizerOutput

-- The loop over the digests of a `Synchronize` message: the state, the digests to request, and the waits.
unfoldable pub collect_missing :
    (Digest → Store.DbResult)
    → ℕ
    → List Digest
    → Synchronizer
    → Synchronizer × List Digest × List SynchronizerOutput
unfolding lookup insert
collect_missing read now [] s = (s, [], [])
collect_missing read now (digest ∷ digests) s = elim (contains_key digest s.pending) [
  | true ↦ collect_missing read now digests s
  | false ↦
      let s' : Synchronizer = record s {
        pending = insert digest (record { round = s.round; timestamp = now }) s.pending;
      } in
      elim (read digest) [
        | Store.ok none ↦
            let (last, missing, waits) = collect_missing read now digests s' in
            (last, digest ∷ missing, wait_for digest ∷ waits)
        | Store.ok (some _) ↦
            let (last, missing, waits) = collect_missing read now digests s' in
            (last, missing, wait_for digest ∷ waits)
        | Store.err ↦ collect_missing read now digests s
      ]
]

-- `PrimaryWorkerMessage::Synchronize`.
unfoldable pub on_synchronize :
    SynchronizerSetup
    → (Digest → Store.DbResult)
    → ℕ
    → List Digest
    → PublicKey
    → Synchronizer
    → Synchronizer × List SynchronizerOutput
unfolding collect_missing worker
on_synchronize setup read now digests target s =
    let (s', missing, waits) = collect_missing read now digests s in
    elim (worker setup.committee target setup.id) [
      | err e ↦ (s', waits)
      | ok addresses ↦
          (s', waits ++ (send addresses.worker_to_worker (batch_request missing setup.name) ∷ []))
    ]

-- The committed batches that `handle_committed_batches` waits for, as the store notifies it of them:
-- `none` is the panic on one that cannot be read or is no batch.
unfoldable pub read_committed :
    WorkerCodec → (Digest → Store.DbResult) → List Digest → Option (List (List (List ℕ)))
read_committed codec notified [] = some []
read_committed codec notified (digest ∷ digests) =
    let rest = read_committed codec notified digests in
    elim (notified digest) [
      | Store.err ↦ none
      | Store.ok none ↦ none
      | Store.ok (some bytes) ↦ elim (codec.deserialize bytes) [
        | none ↦ none
        | some (batch_request _ _) ↦ none
        | some (batch txs) ↦ elim rest [ none ↦ none | some later ↦ some (txs ∷ later) ]
      ]
    ]

unfoldable pub handle_committed_batches :
    WorkerCodec → (Digest → Store.DbResult) → ℕ → List Digest → Synchronizer → Option Synchronizer
unfolding upsert read_committed
handle_committed_batches codec notified round digests s =
    elim (read_committed codec notified digests) [
      | none ↦ none
      | some batches ↦ some (record s {
        committed_batches = upsert round [] (λ before. before ++ digests) s.committed_batches;
      })
    ]

-- The pending requests that are cancelled: those of rounds up to the one collected.
unfoldable pub cancel_old : ℕ → Map Digest PendingRequest → List SynchronizerOutput
cancel_old gc_round [] = []
cancel_old gc_round ((digest, request) ∷ pending) =
    let rest = cancel_old gc_round pending in
    if leb request.round gc_round then cancel digest ∷ rest else rest

-- The committed batches that leave the store.
unfoldable pub delete_old : ℕ → Map ℕ (List Digest) → List SynchronizerOutput
delete_old batch_gc_round [] = []
delete_old batch_gc_round ((r, digests) ∷ committed) =
    let rest = delete_old batch_gc_round committed in
    if leb r batch_gc_round then map delete_batch digests ++ rest else rest

unfoldable pub gc_batches :
    SynchronizerSetup → Synchronizer → Synchronizer × List SynchronizerOutput
unfolding retain delete_old
gc_batches setup s =
    if leb (2 * setup.gc_depth) s.round
    then (
      record s {
        committed_batches =
            retain (λ r digests. not (leb r (s.round - 2 * setup.gc_depth))) s.committed_batches;
      },
      delete_old (s.round - 2 * setup.gc_depth) s.committed_batches,
    )
    else (s, [])

-- `PrimaryWorkerMessage::Cleanup`.
unfoldable pub on_cleanup :
    SynchronizerSetup → ℕ → Synchronizer → Synchronizer × List SynchronizerOutput
unfolding cancel_old retain gc_batches
on_cleanup setup round s =
    if ltb round setup.gc_depth
    then (record s { round = round }, [])
    else (let gc_round = round - setup.gc_depth in
        let cancelled = cancel_old gc_round s.pending in
        let (s', deleted) = gc_batches setup (record s {
          round = round;
          pending = retain (λ digest request. ltb gc_round request.round) s.pending;
        }) in
        (s', cancelled ++ deleted))

-- A wait that ends with the batch; a cancelled wait changes nothing.
unfoldable pub on_batch_ready : Digest → Synchronizer → Synchronizer
unfolding remove
on_batch_ready digest s = record s { pending = remove digest s.pending }

unfoldable pub to_retry : SynchronizerSetup → ℕ → Map Digest PendingRequest → List Digest
to_retry setup now [] = []
to_retry setup now ((digest, request) ∷ pending) =
    let rest = to_retry setup now pending in
    if ltb (request.timestamp + setup.sync_retry_delay) now then digest ∷ rest else rest

abbrev pub worker_to_worker_addresses : List (PublicKey × WorkerAddresses) → List SocketAddr
worker_to_worker_addresses = map (λ x. x.1.worker_to_worker)

-- The timer: the requests that are too old go to some of the other workers.
unfoldable pub on_retry_timer : SynchronizerSetup → ℕ → Synchronizer → List SynchronizerOutput
unfolding to_retry others_workers
on_retry_timer setup now s =
    let retry = to_retry setup now s.pending in
    if is_empty retry
    then []
    else lucky_broadcast
        (worker_to_worker_addresses (others_workers setup.committee setup.name setup.id))
        (batch_request retry setup.name) setup.sync_retry_nodes
      ∷ []
