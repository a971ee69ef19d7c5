-- ===== src/Primary/Proposer.antt =====
-- primary/src/proposer.rs: the headers that a primary proposes. The clock and the timer are inputs.
pub mod Rounds
pub mod Batches
pub mod Examples
use dag_bft_sigmod.Base.{
  ℕ, zero, suc, ◌+◌, ◌/◌, ◌%◌, Bool, true, false, not, ◌&&◌, ◌||◌, List, [], ◌∷◌, ◌++◌, map,
  if◌then◌else◌, ltb, leb, ◌==◌, u64, is_empty, nat_eq,
}
use dag_bft_sigmod.Base.Maps.{Map, upsert}
use dag_bft_sigmod.Config.{PublicKey, WorkerId, Committee}
use dag_bft_sigmod.Primary.Errors.{Digest, Round}
use dag_bft_sigmod.Primary.Messages.{
  Signature, Crypto, Header, header_digest, certificate_digest, genesis,
}

-- The fields of `Proposer` that change.
pub record Proposer : Type 0 where
  pub round : Round
  pub last_parents : List Digest
  pub digests : List (Digest × WorkerId)
  pub payload_size : ℕ
  pub account_counts : Map ℕ ℕ
  pub qd_sum : ℕ
  pub qd_count : ℕ

-- `BTreeMap::insert`: keys ascend, and a key's value is the last that was inserted.
unfoldable pub insert_sorted : ℕ → ℕ → Map ℕ ℕ → Map ℕ ℕ
insert_sorted k v [] = (k, v) ∷ []
insert_sorted k v ((j, w) ∷ m) =
    let rest = insert_sorted k v m in
    if ltb k j then (k, v) ∷ (j, w) ∷ m else if k == j then (k, v) ∷ m else (j, w) ∷ rest

-- `collect()` into a `BTreeMap`, one pair after the other.
unfoldable pub collect_map : Map ℕ ℕ → Map ℕ ℕ → Map ℕ ℕ
unfolding insert_sorted
collect_map m [] = m
collect_map m ((k, v) ∷ kvs) = collect_map (insert_sorted k v m) kvs

-- `BTreeSet::insert`.
unfoldable pub insert_set : ℕ → List ℕ → List ℕ
insert_set k [] = k ∷ []
insert_set k (j ∷ m) =
    let rest = insert_set k m in if ltb k j then k ∷ j ∷ m else if k == j then j ∷ m else j ∷ rest

unfoldable pub collect_set : List ℕ → List ℕ → List ℕ
unfolding insert_set
collect_set s [] = s
collect_set s (k ∷ ks) = collect_set (insert_set k s) ks

unfoldable pub add_account_counts : Map ℕ ℕ → Map ℕ ℕ → Map ℕ ℕ
unfolding upsert
add_account_counts [] m = m
add_account_counts ((account, count) ∷ counts) m =
    add_account_counts counts (upsert account 0 (λ n. (n + count) % 65536) m)

-- What wakes the loop.
pub data ProposerEvent : Type 0 where
  parents_from_core : List Digest → Round → ProposerEvent
  batch_from_worker : Digest → WorkerId → Map ℕ ℕ → ℕ → ProposerEvent
  timer : ProposerEvent

module _ (crypto : Crypto) (sign : Digest → Signature) where
  -- `Header::new` at the time `now`.
  unfoldable pub new_header :
      PublicKey → Round → Map Digest WorkerId → List Digest → Map ℕ ℕ → ℕ → ℕ → Header
  unfolding header_digest
  new_header author round payload parents account_counts avg_queue_delay_ms now =
      let header : Header = record {
        author = author;
        round = round;
        payload = payload;
        parents = parents;
        account_counts = account_counts;
        avg_queue_delay_ms = avg_queue_delay_ms;
        created_at = now;
        id = 0;
        signature = 0;
      } in
      let id = header_digest crypto header in record header { id = id; signature = sign id }

  unfoldable pub new_proposer : Committee → Proposer
  unfolding genesis certificate_digest
  new_proposer c = record {
    round = 1;
    last_parents = map (certificate_digest crypto) (genesis c);
    digests = [];
    payload_size = 0;
    account_counts = [];
    qd_sum = 0;
    qd_count = 0;
  }

  module _ (name : PublicKey) (header_size : ℕ) where
    unfoldable pub make_header : Proposer → ℕ → Proposer × Header
    unfolding new_header collect_map collect_set
    make_header s now =
        let avg_queue_delay_ms = if ltb 0 s.qd_count then s.qd_sum / s.qd_count else 0 in
        (
          record s {
            last_parents = [];
            digests = [];
            account_counts = [];
            qd_sum = 0;
            qd_count = 0;
          },
          new_header name s.round (collect_map [] s.digests) (collect_set [] s.last_parents)
              (collect_map [] s.account_counts) avg_queue_delay_ms now,
        )

    -- The start of a turn: a header, when the parents are there and it is time or there is enough
    -- payload.
    unfoldable pub propose : Bool → ℕ → Proposer → Proposer × List Header
    unfolding make_header
    propose timer_expired now s =
        let enough_parents = not (is_empty s.last_parents) in
        let enough_digests = leb header_size s.payload_size in
        if (timer_expired || enough_digests) && enough_parents
        then (let (s', header) = make_header s now in (record s' { payload_size = 0 }, header ∷ []))
        else (s, [])

    -- A digest has 32 bytes.
    unfoldable pub receive_event : Proposer → ProposerEvent → Proposer
    unfolding add_account_counts
    receive_event s (parents_from_core parents round) =
        if ltb round s.round
        then s
        else record s { round = u64 (round + 1); last_parents = parents }
    receive_event s (batch_from_worker digest worker_id counts queue_delay_ms) = record s {
      payload_size = u64 (s.payload_size + 32);
      qd_sum = u64 (s.qd_sum + queue_delay_ms);
      qd_count = u64 (s.qd_count + 1);
      digests = s.digests ++ (digest, worker_id) ∷ [];
      account_counts = add_account_counts counts s.account_counts;
    }
    receive_event s timer = s

    -- The turns of the loop, each with the timer's state and the time at its start.
    unfoldable pub run_proposer :
        Proposer → List (Bool × (ℕ × ProposerEvent)) → Proposer × List Header
    unfolding propose receive_event
    run_proposer s [] = (s, [])
    run_proposer s ((timer_expired, (now, event)) ∷ events) =
        let (s', headers) = propose timer_expired now s in
        let (last, later) = run_proposer (receive_event s' event) events in (last, headers ++ later)
