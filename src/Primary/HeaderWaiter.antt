-- ===== src/Primary/HeaderWaiter.antt =====
-- primary/src/header_waiter.rs: headers that wait for their parents or their batches.
-- The pool of waiting futures is outside: it is told what to wait for and what to cancel, and hands
-- back the headers whose data is there. The clock is an input.
pub mod Pending
pub mod Cancelled
pub mod Examples
use dag_bft_sigmod.Base.{
  ℕ, ◌+◌, ◌-◌, Bool, true, false, not, ◌&&◌, ◌||◌, Option, none, some, List, [], ◌∷◌, ◌++◌, map,
  if◌then◌else◌, ltb, leb, nat_eq, is_empty,
}
use dag_bft_sigmod.Base.Maps.{Map, lookup, insert, remove, retain, contains_key, upsert, keys}
use dag_bft_sigmod.Config.{
  PublicKey, WorkerId, SocketAddr, Committee, WorkerAddresses, PrimaryAddresses, worker, primary,
  others_primaries,
}
use dag_bft_sigmod.Config
use dag_bft_sigmod.Store.{Key}
use dag_bft_sigmod.Primary.Errors.{Digest, Round}
use dag_bft_sigmod.Primary.Messages.{Header, Signature}
use dag_bft_sigmod.Primary.Node.{digest_key, payload_key}

pub data WaiterMessage : Type 0 where
  sync_batches : Map Digest WorkerId → Header → WaiterMessage
  sync_parents : List Digest → Header → WaiterMessage

-- The fields of `HeaderWaiter` that change, without the cancel handlers.
pub record HeaderWaiter : Type 0 where
  pub parent_requests : Map Digest (Round × ℕ)
  pub batch_requests : Map Digest Round
  pub pending : Map Digest (Round × Bool)

unfoldable pub new_waiter : HeaderWaiter
new_waiter = record { parent_requests = []; batch_requests = []; pending = [] }

-- What the waiter does to its surroundings: a waiting future, its cancellation, the messages to
-- workers and primaries, and the headers for the core.
pub data WaiterOutput : Type 0 where
  wait : List Key → Header → WaiterOutput
  cancel : Digest → WaiterOutput
  synchronize : SocketAddr → List Digest → PublicKey → WaiterOutput
  certificates_request : SocketAddr → List Digest → PublicKey → WaiterOutput
  lucky_broadcast : List SocketAddr → List Digest → PublicKey → ℕ → WaiterOutput
  to_core : Header → WaiterOutput

pub data WaiterEvent : Type 0 where
  message : WaiterMessage → ℕ → WaiterEvent
  found : Header → WaiterEvent
  canceled : WaiterEvent
  timer : ℕ → WaiterEvent

-- `batch_requests.entry(digest).or_insert_with(..)`: the new requests, by worker.
unfoldable pub request_batches :
    Round
    → Map Digest WorkerId
    → Map Digest Round
    → Map WorkerId (List Digest)
    → Map Digest Round × Map WorkerId (List Digest)
unfolding lookup insert upsert
request_batches round [] requests requires = (requests, requires)
request_batches round ((digest, worker_id) ∷ missing) requests requires =
    if contains_key digest requests
    then request_batches round missing requests requires
    else request_batches round missing (insert digest round requests)
        (upsert worker_id [] (λ ds. ds ++ digest ∷ []) requires)

-- `parent_requests.entry(digest).or_insert_with(..)`: the new requests.
unfoldable pub request_parents :
    Round
    → ℕ
    → List Digest
    → Map Digest (Round × ℕ)
    → List Digest
    → Map Digest (Round × ℕ) × List Digest
unfolding lookup insert
request_parents round now [] requests requires = (requests, requires)
request_parents round now (digest ∷ missing) requests requires =
    if contains_key digest requests
    then request_parents round now missing requests requires
    else request_parents round now missing (insert digest (round, now) requests)
        (requires ++ digest ∷ [])

-- `remove` for every key.
unfoldable pub remove_all {κ} : {V : Type κ} → List Digest → Map Digest V → Map Digest V
unfolding remove
remove_all [] m = m
remove_all (k ∷ ks) m = remove_all ks (remove k m)

-- The requests that were sent longer ago than the delay.
unfoldable pub requests_to_retry : ℕ → ℕ → Map Digest (Round × ℕ) → List Digest
requests_to_retry delay now [] = []
requests_to_retry delay now ((digest, (_, timestamp)) ∷ requests) =
    let rest = requests_to_retry delay now requests in
    if ltb (timestamp + delay) now then digest ∷ rest else rest

-- The end of a turn, with the round of the consensus.
unfoldable pub collect_garbage : ℕ → Round → HeaderWaiter → HeaderWaiter × List WaiterOutput
unfolding retain
collect_garbage gc_depth round s =
    if ltb gc_depth round
    then (let gc_round = round - gc_depth in
        (
          record s {
            pending = retain (λ _ x. ltb gc_round x.0 || x.1) s.pending;
            parent_requests = retain (λ _ x. ltb gc_round x.0) s.parent_requests;
          },
          map (λ d. cancel d) (keys (retain (λ _ x. leb x.0 gc_round && not x.1) s.pending)),
        ))
    else (s, [])

abbrev pub id_of : WaiterMessage → Digest
id_of (sync_batches missing header) = header.id
id_of (sync_parents missing header) = header.id

module _ (name : PublicKey) (c : Committee) where
  -- One message to each worker; `none` is a panic.
  unfoldable pub send_synchronize :
      PublicKey → Map WorkerId (List Digest) → Option (List WaiterOutput)
  send_synchronize author [] = some []
  send_synchronize author ((worker_id, digests) ∷ requires) =
      let rest = send_synchronize author requires in
      elim (worker c name worker_id) [
        | Config.err e ↦ none
        | Config.ok addresses ↦ elim rest [
          | none ↦ none
          | some sent ↦ some (synchronize addresses.primary_to_worker digests author ∷ sent)
        ]
      ]

  -- A command of the synchronizer; `none` is a panic.
  unfoldable pub on_message :
      HeaderWaiter → WaiterMessage → ℕ → Option (HeaderWaiter × List WaiterOutput)
  unfolding insert request_batches request_parents send_synchronize
  on_message s (sync_batches missing header) now =
      let wait_for = map (λ x. payload_key x.0 x.1) missing in
      let pending = insert header.id (header.round, false) s.pending in
      let (requests, requires) = request_batches header.round missing s.batch_requests [] in
      elim (send_synchronize header.author requires) [
        | none ↦ none
        | some sent ↦
            some (
              record s { pending = pending; batch_requests = requests },
              wait wait_for header ∷ sent,
            )
      ]
  on_message s (sync_parents missing header) now =
      let wait_for = map digest_key missing in
      let pending = insert header.id (header.round, false) s.pending in
      let (requests, requires) = request_parents header.round now missing s.parent_requests [] in
      let s' = record s { pending = pending; parent_requests = requests } in
      if is_empty requires
      then some (s', wait wait_for header ∷ [])
      else elim (primary c header.author) [
        | Config.err e ↦ none
        | Config.ok addresses ↦ some (
          s',
          wait wait_for header
              ∷ certificates_request addresses.primary_to_primary requires name
              ∷ [],
        )
      ]

  -- The event of a turn, and whether the turn goes on to the clean-up.
  unfoldable pub on_event :
      ℕ → ℕ → HeaderWaiter → WaiterEvent → Option (HeaderWaiter × (List WaiterOutput × Bool))
  unfolding on_message lookup remove remove_all requests_to_retry
  on_event retry_delay retry_nodes s (message m now) =
      if contains_key (id_of m) s.pending
      then some (s, ([], false))
      else elim (on_message s m now) [ none ↦ none | some (s', sent) ↦ some (s', (sent, true)) ]
  on_event retry_delay retry_nodes s (found header) = some (
    record s {
      pending = remove header.id s.pending;
      batch_requests = remove_all (keys header.payload) s.batch_requests;
      parent_requests = remove_all header.parents s.parent_requests;
    },
    (to_core header ∷ [], true),
  )
  on_event retry_delay retry_nodes s canceled = some (s, ([], true))
  on_event retry_delay retry_nodes s (timer now) =
      let retry = requests_to_retry retry_delay now s.parent_requests in
      let addresses = map (λ x. x.1.primary_to_primary) (others_primaries c name) in
      some (s, (lucky_broadcast addresses retry name retry_nodes ∷ [], true))

  module _ (gc_depth retry_delay retry_nodes : ℕ) where
    unfoldable pub turn :
        HeaderWaiter → Round → WaiterEvent → Option (HeaderWaiter × List WaiterOutput)
    unfolding on_event collect_garbage
    turn s round event = elim (on_event retry_delay retry_nodes s event) [
      | none ↦ none
      | some (s', (sent, false)) ↦ some (s', sent)
      | some (s', (sent, true)) ↦
          let (s'', canceled_now) = collect_garbage gc_depth round s' in
          some (s'', sent ++ canceled_now)
    ]

    unfoldable pub turns :
        HeaderWaiter → List (Round × WaiterEvent) → Option (HeaderWaiter × List WaiterOutput)
    unfolding turn
    turns s [] = some (s, [])
    turns s ((round, event) ∷ events) = elim (turn s round event) [
      | none ↦ none
      | some (s', sent) ↦ elim (turns s' events) [
        | none ↦ none
        | some (last, later) ↦ some (last, sent ++ later)
      ]
    ]
