-- ===== src/Primary/Core.antt =====
-- primary/src/core.rs: the handlers of headers, votes and certificates.
-- The calls among the handlers are on fuel. A cancel handler is the address of its message.
pub mod Admission
pub mod Steps
pub mod Fuel
pub mod Votes
pub mod Voting
pub mod Ancestors
pub mod Delivery
pub mod Counts
pub mod Parents
pub mod Quorum
pub mod Examples
use dag_bft_sigmod.Base.{
  ℕ, zero, suc, ◌-◌, Bool, true, false, Option, none, some, List, [], ◌∷◌, ◌++◌, map, if◌then◌else◌,
  ltb, leb, ◌==◌, ◌&&◌, contains, nat_eq,
}
use dag_bft_sigmod.Base.Maps.{Map, lookup, insert, retain, get_or}
use dag_bft_sigmod.Config.{PublicKey, SocketAddr, PrimaryAddresses, others_primaries, primary}
use dag_bft_sigmod.Config
use dag_bft_sigmod.Primary.Errors.{
  Digest, Round, DagError, DagResult, ok, err, ◌>>◌, ensure, store_error, too_old, unexpected_vote,
}
use dag_bft_sigmod.Primary.Messages.{
  Header, Vote, Certificate, round_of, default_header, vote_digest, certificate_digest,
}
use dag_bft_sigmod.Primary.Verify.{verify_header, verify_vote, verify_certificate}
use dag_bft_sigmod.Primary.Aggregators.{
  VotesAggregator, new_votes, append_vote, CertificatesAggregator, new_certificates,
  append_certificate,
}
use dag_bft_sigmod.Primary.Node.{
  Node, PrimaryMessage, Output, send, to_proposer, to_consensus, digest_key, new_vote,
}
use dag_bft_sigmod.Primary.Synchronizer.{deliver_certificate}
use dag_bft_sigmod.Primary.Core.Admission.{admit, rejected, suspended, admitted}

-- The fields of `Core` that change, and the store.
pub record Core (S : Type 0) : Type 0 where
  pub store : S
  pub gc_round : Round
  pub last_voted : Map Round (List PublicKey)
  pub processing : Map Round (List Digest)
  pub current_header : Header
  pub votes_aggregator : VotesAggregator
  pub certificates_aggregators : Map Round CertificatesAggregator
  pub cancel_handlers : Map Round (List SocketAddr)

-- How a handler ends. `exhausted` is fuel that ran out.
pub data Outcome : Type 0 where
  done : Outcome
  failed : DagError → Outcome
  panicked : Outcome
  exhausted : Outcome

abbrev pub Result : Type 0 → Type 0
Result S = Core S × (List Output × Outcome)

-- An `.expect(..)` on a handler's result.
abbrev pub expect : Outcome → Outcome
expect done = done
expect (failed e) = panicked
expect panicked = panicked
expect exhausted = exhausted

abbrev pub outcome_of : {A : Type 0} → DagResult A → Outcome
outcome_of (ok a) = done
outcome_of (err e) = failed e

-- Add outputs in front of a result.
abbrev pub after : {S : Type 0} → List Output → Result S → Result S
after sent (s, (later, outcome)) = (s, (sent ++ later, outcome))

-- `set.entry(round).or_insert_with(HashSet::new).insert(x)`.
unfoldable pub mark : Round → ℕ → Map Round (List ℕ) → Map Round (List ℕ)
unfolding lookup insert contains
mark r x m =
    let set = get_or [] (lookup r m) in insert r (if contains set x then set else x ∷ set) m

unfoldable pub is_marked : Round → ℕ → Map Round (List ℕ) → Bool
unfolding lookup contains
is_marked r x m = contains (get_or [] (lookup r m)) x

-- `cancel_handlers.entry(round).or_insert_with(Vec::new).extend(handlers)`.
unfoldable pub keep_handlers :
    Round → List SocketAddr → Map Round (List SocketAddr) → Map Round (List SocketAddr)
unfolding lookup insert
keep_handlers r handlers m = insert r (get_or [] (lookup r m) ++ handlers) m

-- What `Core::spawn` starts with.
unfoldable pub new_core : {S : Type 0} → S → Core S
unfolding default_header new_votes
new_core store = record {
  store = store;
  gc_round = 0;
  last_voted = [];
  processing = [];
  current_header = default_header;
  votes_aggregator = new_votes;
  certificates_aggregators = [];
  cancel_handlers = [];
}

module _ {S : Type 0} (node : Node S) where
  unfoldable pub other_addresses : List SocketAddr
  other_addresses = map (λ x. x.1.primary_to_primary) (others_primaries node.committee node.name)

  abbrev pub broadcast : PrimaryMessage → List Output
  broadcast message = map (λ address. send address message) other_addresses

  -- The end of `process_certificate`: store it, gather the parents of the next round, pass it on.
  unfoldable pub accept_certificate : Core S → Certificate → Result S
  unfolding lookup insert
  accept_certificate s x =
      let store =
        node.backend.write s.store (digest_key (certificate_digest node.crypto x))
          (node.codec.serialize_certificate x) in
      let (a, r) =
        append_certificate node.crypto
          (get_or new_certificates (lookup (round_of x) s.certificates_aggregators)) x
          node.committee in
      let s' = record s {
        store = store;
        certificates_aggregators = insert (round_of x) a s.certificates_aggregators;
      } in
      elim r [
        | err e ↦ (s', ([], failed e))
        | ok none ↦ (s', (to_consensus x ∷ [], done))
        | ok (some parents) ↦ (s', (to_proposer parents (round_of x) ∷ to_consensus x ∷ [], done))
      ]

  -- `process_certificate` once the embedded header is processed.
  unfoldable pub deliver : Core S → Certificate → Result S
  unfolding accept_certificate
  deliver s x = elim (deliver_certificate node s.store x) [
    | err e ↦ (s, ([], failed e))
    | ok (false, sent) ↦ (s, (sent, done))
    | ok (true, sent) ↦ accept_certificate s x
  ]

  -- `process_certificate`; `header_step` is `process_header`.
  unfoldable pub process_certificate_with :
      (Core S → Header → Result S) → Core S → Certificate → Result S
  unfolding is_marked deliver
  process_certificate_with header_step s x =
      if is_marked x.header.round x.header.id s.processing
      then deliver s x
      else (let (s', (sent, outcome)) = header_step s x.header in
          elim outcome [
            | done ↦ after sent (deliver s' x)
            | failed e ↦ (s', (sent, failed e))
            | panicked ↦ (s', (sent, panicked))
            | exhausted ↦ (s', (sent, exhausted))
          ])

  -- `process_vote`; `certificate_step` is `process_certificate`.
  unfoldable pub process_vote_with : (Core S → Certificate → Result S) → Core S → Vote → Result S
  unfolding append_vote keep_handlers other_addresses
  process_vote_with certificate_step s v =
      let (a, r) = append_vote s.votes_aggregator v node.committee s.current_header in
      let s' = record s { votes_aggregator = a } in
      elim r [
        | err e ↦ (s', ([], failed e))
        | ok none ↦ (s', ([], done))
        | ok (some x) ↦
            let handlers = keep_handlers (round_of x) other_addresses s'.cancel_handlers in
            let (last, (sent, outcome)) =
              certificate_step (record s' { cancel_handlers = handlers }) x in
            (last, (broadcast (PrimaryMessage.certificate x) ++ sent, expect outcome))
      ]

  -- The end of `process_header`: one vote for each author in a round; `vote_step` is `process_vote`.
  unfoldable pub vote_for : (Core S → Vote → Result S) → Core S → Header → Result S
  unfolding is_marked mark new_vote keep_handlers
  vote_for vote_step s h =
      let s' = record s { last_voted = mark h.round h.author s.last_voted } in
      if is_marked h.round h.author s.last_voted
      then (s', ([], done))
      else if h.author == node.name
      then (let (last, (sent, outcome)) = vote_step s' (new_vote node h) in
          (last, (sent, expect outcome)))
      else elim (primary node.committee h.author) [
        | Config.err e ↦ (s', ([], panicked))
        | Config.ok addresses ↦
            let address = addresses.primary_to_primary in
            (
              record s' {
                cancel_handlers = keep_handlers h.round (address ∷ []) s'.cancel_handlers;
              },
              (send address (PrimaryMessage.vote (new_vote node h)) ∷ [], done),
            )
      ]

  unfoldable pub process_header_with : (Core S → Vote → Result S) → Core S → Header → Result S
  unfolding mark vote_for
  process_header_with vote_step s h =
      let s' = record s { processing = mark h.round h.id s.processing } in
      elim (admit node s.store h) [
        | rejected e ↦ (s', ([], failed e))
        | suspended sent ↦ (s', (sent, done))
        | admitted ↦
            let store =
              node.backend.write s'.store (digest_key h.id) (node.codec.serialize_header h) in
            vote_for vote_step (record s' { store = store }) h
      ]

  unfoldable pub process_header : ℕ → Core S → Header → Result S
  unfolding process_header_with process_vote_with process_certificate_with
  process_header zero s h = (s, ([], exhausted))
  process_header (suc fuel) s h =
      process_header_with (process_vote_with (process_certificate_with (process_header fuel))) s h

  unfoldable pub process_certificate : ℕ → Core S → Certificate → Result S
  unfolding process_header process_certificate_with
  process_certificate fuel s x = process_certificate_with (process_header fuel) s x

  unfoldable pub process_vote : ℕ → Core S → Vote → Result S
  unfolding process_certificate process_vote_with
  process_vote fuel s v = process_vote_with (process_certificate fuel) s v

  unfoldable pub process_own_header : ℕ → Core S → Header → Result S
  unfolding process_header keep_handlers other_addresses new_votes
  process_own_header fuel s h =
      let s' = record s {
        current_header = h;
        votes_aggregator = new_votes;
        cancel_handlers = keep_handlers h.round other_addresses s.cancel_handlers;
      } in
      after (broadcast (PrimaryMessage.header h)) (process_header fuel s' h)
