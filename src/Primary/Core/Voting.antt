-- ===== src/Primary/Core/Voting.antt =====
-- primary/src/core.rs: the votes that the core sends to other primaries.
use dag_bft_sigmod.Base.{
  ℕ, zero, suc, ◌+◌, ◌-◌, ◌≤◌, List, [], ◌∷◌, ◌++◌, ◌≡◌, refl, ap, arith, All, if◌then◌else◌,
  ==_iff, leb, nat_eq,
}
use dag_bft_sigmod.Base.Maps.{Map, lookup, retain}
use dag_bft_sigmod.Config.{PublicKey}
use dag_bft_sigmod.Primary.Errors.{Round}
use dag_bft_sigmod.Primary.Messages.{Header, Vote, Certificate}
use dag_bft_sigmod.Primary.Aggregators.{append_vote, new_votes}
use dag_bft_sigmod.Primary.Node.{Node, PrimaryMessage, new_vote, digest_key}
use dag_bft_sigmod.Primary.Synchronizer.{get_parents, missing_payload, deliver_certificate}
use dag_bft_sigmod.Primary.Core.{
  Core, Result, deliver, accept_certificate, process_certificate_with, process_vote_with, vote_for,
  process_header_with, process_header, process_certificate, process_vote, process_own_header,
  is_marked, mark, other_addresses, broadcast, keep_handlers,
}
use dag_bft_sigmod.Primary.Core.Admission.{admit}
use dag_bft_sigmod.Primary.Core.Steps.{
  enough_fuel, handle, cleanup, step, run, Event, receive, looped_header, looped_certificate,
  own_header,
}
use dag_bft_sigmod.Primary.Core.Votes.{
  votes_for, voted, sent_of, votes_for-append, votes_for-map, mark-voted,
}

module _ {S : Type 0} (node : Node S) where
  deliver_silent :
      (r : Round) (a : PublicKey) (s : Core S) (x : Certificate)
      → votes_for r a (deliver node s x).1.0 ≡ 0
  unfolding deliver accept_certificate deliver_certificate votes_for
  deliver_silent r a s x = ground arith

  deliver_voted : (s : Core S) (x : Certificate) → (deliver node s x).0.last_voted ≡ s.last_voted
  unfolding deliver accept_certificate deliver_certificate
  deliver_voted s x = ground arith

  admit_silent :
      (r : Round) (a : PublicKey) (store : S) (h : Header)
      → votes_for r a (sent_of (admit node store h)) ≡ 0
  unfolding admit get_parents missing_payload votes_for
  admit_silent r a store h = ground arith

  -- Votes are sent only for authors that are marked, and each of them once.
  abbrev Counts : Round → PublicKey → Core S → Result S → Type 0
  Counts r a s result = voted r a s + votes_for r a result.1.0 ≤ voted r a result.0

  deliver-Counts :
      (r : Round) (a : PublicKey) (s : Core S) (x : Certificate) → Counts r a s (deliver node s x)
  unfolding voted
  deliver-Counts r a s x =
      let same : voted r a (deliver node s x).0 ≡ voted r a s =
        ap (λ m. if is_marked r a m then 1 else 0) (deliver_voted s x) in
      ground (arith, deliver_silent r a s x, same)

  process_certificate_with-Counts :
      (header_step : Core S → Header → Result S)
      → ((r : Round) (a : PublicKey) (s : Core S) (h : Header) → Counts r a s (header_step s h))
      → (r : Round) (a : PublicKey) (s : Core S) (x : Certificate)
      → Counts r a s (process_certificate_with node header_step s x)
  unfolding process_certificate_with
  process_certificate_with-Counts step counts r a s x =
      let (s', (sent, outcome)) = step s x.header in
      ground (
        arith,
        counts r a s x.header,
        deliver-Counts r a s x,
        deliver-Counts r a s' x,
        votes_for-append r a sent (deliver node s' x).1.0,
      )

  process_vote_with-Counts :
      (certificate_step : Core S → Certificate → Result S)
      → ((r : Round) (a : PublicKey) (s : Core S) (x : Certificate)
          → Counts r a s (certificate_step s x))
      → (r : Round) (a : PublicKey) (s : Core S) (v : Vote)
      → Counts r a s (process_vote_with node certificate_step s v)
  unfolding process_vote_with append_vote voted votes_for
  process_vote_with-Counts step counts r a s v =
      let votes = s.votes_aggregator.votes ++ (v.author, v.signature) ∷ [] in
      let s' = record s {
        votes_aggregator = record {
          weight = 0;
          votes = votes;
          used = v.author ∷ s.votes_aggregator.used;
        };
        cancel_handlers =
            keep_handlers s.current_header.round (other_addresses node) s.cancel_handlers;
      } in
      let x : Certificate = record { header = s.current_header; votes = votes } in
      let message = PrimaryMessage.certificate x in
      ground (
        arith,
        counts r a s' x,
        votes_for-append r a (broadcast node message) (step s' x).1.0,
        votes_for-map r a message (other_addresses node) refl,
      )

  vote_for-Counts :
      (vote_step : Core S → Vote → Result S)
      → ((r : Round) (a : PublicKey) (s : Core S) (v : Vote) → Counts r a s (vote_step s v))
      → (r : Round) (a : PublicKey) (s : Core S) (h : Header)
      → Counts r a s (vote_for node vote_step s h)
  unfolding vote_for voted votes_for new_vote
  vote_for-Counts step counts r a s h =
      let s' = record s { last_voted = mark h.round h.author s.last_voted } in
      ground (
        arith,
        mark-voted r h.round a h.author s.last_voted,
        counts r a s' (new_vote node h),
        ==_iff h.round r,
        ==_iff h.author a,
      )

  process_header_with-Counts :
      (vote_step : Core S → Vote → Result S)
      → ((r : Round) (a : PublicKey) (s : Core S) (v : Vote) → Counts r a s (vote_step s v))
      → (r : Round) (a : PublicKey) (s : Core S) (h : Header)
      → Counts r a s (process_header_with node vote_step s h)
  unfolding process_header_with voted votes_for
  process_header_with-Counts vote_step counts r a s h =
      let s' = record s {
        processing = mark h.round h.id s.processing;
        store = node.backend.write s.store (digest_key h.id) (node.codec.serialize_header h);
      } in
      ground (arith, vote_for-Counts vote_step counts r a s' h, admit_silent r a s.store h)

  process_header-Counts :
      (n : ℕ) (r : Round) (a : PublicKey) (s : Core S) (h : Header)
      → Counts r a s (process_header node n s h)
  unfolding process_header votes_for
  process_header-Counts zero r a s h = omega arith
  process_header-Counts (suc n) r a s h =
      process_header_with-Counts
        (process_vote_with node (process_certificate_with node (process_header node n)))
        (process_vote_with-Counts (process_certificate_with node (process_header node n))
          (process_certificate_with-Counts (process_header node n) (process_header-Counts n)))
        r a s h

  process_certificate-Counts :
      (n : ℕ) (r : Round) (a : PublicKey) (s : Core S) (x : Certificate)
      → Counts r a s (process_certificate node n s x)
  unfolding process_certificate
  process_certificate-Counts n r a s x =
      process_certificate_with-Counts (process_header node n) (process_header-Counts n) r a s x

  process_vote-Counts :
      (n : ℕ) (r : Round) (a : PublicKey) (s : Core S) (v : Vote)
      → Counts r a s (process_vote node n s v)
  unfolding process_vote
  process_vote-Counts n r a s v =
      process_vote_with-Counts (process_certificate node n) (process_certificate-Counts n) r a s v

  process_own_header-Counts :
      (n : ℕ) (r : Round) (a : PublicKey) (s : Core S) (h : Header)
      → Counts r a s (process_own_header node n s h)
  unfolding process_own_header voted
  process_own_header-Counts n r a s h =
      let s' = record s {
        current_header = h;
        votes_aggregator = new_votes;
        cancel_handlers = keep_handlers h.round (other_addresses node) s.cancel_handlers;
      } in
      let message = PrimaryMessage.header h in
      ground (
        arith,
        process_header-Counts n r a s' h,
        votes_for-append r a (broadcast node message) (process_header node n s' h).1.0,
        votes_for-map r a message (other_addresses node) refl,
      )

  handle-Counts :
      (r : Round) (a : PublicKey) (s : Core S) (event : Event) → Counts r a s (handle node s event)
  unfolding handle votes_for
  handle-Counts r a s (receive (PrimaryMessage.header h)) =
      ground (arith, process_header-Counts enough_fuel r a s h)
  handle-Counts r a s (receive (PrimaryMessage.vote v)) =
      ground (arith, process_vote-Counts enough_fuel r a s v)
  handle-Counts r a s (receive (PrimaryMessage.certificate x)) =
      ground (arith, process_certificate-Counts enough_fuel r a s x)
  handle-Counts r a s (receive (PrimaryMessage.certificates_request digests requestor)) =
      omega arith
  handle-Counts r a s (looped_header h) = process_header-Counts enough_fuel r a s h
  handle-Counts r a s (looped_certificate x) = process_certificate-Counts enough_fuel r a s x
  handle-Counts r a s (own_header h) = process_own_header-Counts enough_fuel r a s h

  lookup-retain :
      (g r : Round) (m : Map Round (List PublicKey))
      → g ≤ r
      → lookup r (retain (λ k _. leb g k) m) ≡ lookup r m
  unfolding lookup retain
  lookup-retain g r [] h = refl
  lookup-retain g r ((k, v) ∷ m) h = ground (arith, lookup-retain g r m h)

  cleanup-voted :
      (r : Round) (a : PublicKey) (round : Round) (s : Core S)
      → round ≤ r + node.gc_depth
      → voted r a (cleanup node round s) ≡ voted r a s
  unfolding cleanup voted is_marked
  cleanup-voted r a round s low =
      ground (arith, lookup-retain (round - node.gc_depth) r s.last_voted)

  run-Counts :
      (r : Round) (a : PublicKey) (s : Core S) (events : List (Round × Event))
      → All (λ e. e.0 ≤ r + node.gc_depth) events
      → voted r a s + votes_for r a (run node s events).1 ≤ voted r a (run node s events).0
  unfolding run step votes_for
  run-Counts r a s [] low = omega arith
  run-Counts r a s ((round, event) ∷ events) low =
      let (s', (sent, outcome)) = handle node s event in
      let s'' = cleanup node round s' in
      ground (
        arith,
        handle-Counts r a s event,
        cleanup-voted r a round s' low.0,
        run-Counts r a s'' events low.1,
        votes_for-append r a sent (run node s'' events).1,
      )

  -- While no turn of the loop garbage collects a round, the core sends at most one vote for the
  -- headers of an author in it.
  pub votes_once :
      (r : Round) (a : PublicKey) (s : Core S) (events : List (Round × Event))
      → All (λ e. e.0 ≤ r + node.gc_depth) events
      → votes_for r a (run node s events).1 ≤ 1
  unfolding voted
  votes_once r a s events low = ground (arith, run-Counts r a s events low)
