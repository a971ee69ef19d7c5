-- ===== src/Primary/Core/Delivery.antt =====
-- primary/src/core.rs: the certificates that the core hands to the consensus have their ancestors.
use dag_bft_sigmod.Base.{ℕ, zero, suc, true, List, [], ◌∷◌, ◌++◌, ◌≡◌, refl, arith, nat_eq}
use dag_bft_sigmod.Store.{Key}
use dag_bft_sigmod.Primary.Errors.{Round, ok}
use dag_bft_sigmod.Primary.Messages.{Header, Vote, Certificate, certificate_digest}
use dag_bft_sigmod.Primary.Aggregators.{append_vote, new_votes, append_certificate}
use dag_bft_sigmod.Primary.Node.{Node, PrimaryMessage, new_vote, digest_key}
use dag_bft_sigmod.Primary.Synchronizer.{deliver_certificate, has_parents}
use dag_bft_sigmod.Primary.Core.{
  Core, Result, deliver, accept_certificate, process_certificate_with, process_vote_with, vote_for,
  process_header_with, process_header, process_certificate, process_vote, process_own_header, mark,
  other_addresses, broadcast, keep_handlers,
}
use dag_bft_sigmod.Primary.Core.Steps.{
  enough_fuel, handle, cleanup, step, run, Event, receive, looped_header, looped_certificate,
  own_header,
}
use dag_bft_sigmod.Primary.Core.Ancestors.{
  holds, Durable, Extends, holds_parents, has_ancestors, have_ancestors, has_parents-holds_parents,
  holds_parents-Extends, have_ancestors-Extends, have_ancestors-append, have_ancestors-send,
  admit_waits,
}

module _ {S : Type 0} (node : Node S) where
  -- A handler's result keeps the store and hands over certificates with their ancestors.
  abbrev pub Delivers : Core S → Result S → Type 0
  Delivers s result =
      Extends node s.store result.0.store × (have_ancestors node result.0.store result.1.0 ≡ true)

  module _ (durable : Durable node) where
    accept_certificate-Delivers :
        (s : Core S) (x : Certificate)
        → holds_parents node s.store x.header.parents ≡ true
        → Delivers s (accept_certificate node s x)
    unfolding accept_certificate have_ancestors has_ancestors append_certificate
    accept_certificate-Delivers s x h =
        let k = digest_key (certificate_digest node.crypto x) in
        let v = node.codec.serialize_certificate x in
        let ext : Extends node s.store (node.backend.write s.store k v) =
          λ j. (durable s.store k j v).1 in
        (
          λ j held. ground (arith, ext j held),
          ground (
            arith,
            (durable s.store k k v).0,
            holds_parents-Extends node s.store (node.backend.write s.store k v) ext x.header.parents
                h,
          ),
        )

    deliver-Delivers : (s : Core S) (x : Certificate) → Delivers s (deliver node s x)
    unfolding deliver deliver_certificate have_ancestors has_ancestors
    deliver-Delivers s x =
        let accepted : has_parents node s.store x.header.parents ≡ ok true
            → Delivers s (accept_certificate node s x) =
          λ e.
            accept_certificate-Delivers s x
              (has_parents-holds_parents node s.store x.header.parents e) in
        let stays : (k : Key)
            → has_parents node s.store x.header.parents ≡ ok true
            → holds node s.store k ≡ true
            → holds node (accept_certificate node s x).0.store k ≡ true =
          λ k e. (accepted e).0 k in
        let founded : has_parents node s.store x.header.parents ≡ ok true
            → have_ancestors node (accept_certificate node s x).0.store
                (accept_certificate node s x).1.0
              ≡ true =
          λ e. (accepted e).1 in
        (λ k held. ground (arith, stays k), ground (arith, founded))

    process_certificate_with-Delivers :
        (header_step : Core S → Header → Result S)
        → ((s : Core S) (h : Header) → Delivers s (header_step s h))
        → (s : Core S) (x : Certificate)
        → Delivers s (process_certificate_with node header_step s x)
    unfolding process_certificate_with
    process_certificate_with-Delivers step delivers s x =
        let (s', (sent, outcome)) = step s x.header in
        let (ext, founded) = delivers s x.header in
        let (ext', founded') = deliver-Delivers s' x in
        let (ext'', founded'') = deliver-Delivers s x in
        (
          λ k held. ground (arith, ext k, ext' k, ext'' k),
          ground (
            arith,
            founded,
            founded',
            founded'',
            have_ancestors-append node (deliver node s' x).0.store sent (deliver node s' x).1.0,
            have_ancestors-Extends node s'.store (deliver node s' x).0.store ext' sent,
          ),
        )

    process_vote_with-Delivers :
        (certificate_step : Core S → Certificate → Result S)
        → ((s : Core S) (x : Certificate) → Delivers s (certificate_step s x))
        → (s : Core S) (v : Vote) → Delivers s (process_vote_with node certificate_step s v)
    unfolding process_vote_with append_vote have_ancestors
    process_vote_with-Delivers step delivers s v =
        let votes = s.votes_aggregator.votes ++ (v.author, v.signature) ∷ [] in
        let s' = record s {
          votes_aggregator = record {
            weight = 0;
            votes = votes;
            used = v.author ∷ s.votes_aggregator.used;
          };
          cancel_handlers =
              keep_handlers s.current_header.round (other_addresses node) s.cancel_handlers;
        } in
        let x : Certificate = record { header = s.current_header; votes = votes } in
        let message = PrimaryMessage.certificate x in
        let (ext, founded) = delivers s' x in
        let last = (step s' x).0.store in
        (
          λ k held. ground (arith, ext k),
          ground (
            arith,
            founded,
            have_ancestors-append node last (broadcast node message) (step s' x).1.0,
            have_ancestors-send node last message (other_addresses node),
          ),
        )

    vote_for-Delivers :
        (vote_step : Core S → Vote → Result S)
        → ((s : Core S) (v : Vote) → Delivers s (vote_step s v))
        → (s : Core S) (h : Header) → Delivers s (vote_for node vote_step s h)
    unfolding vote_for have_ancestors has_ancestors new_vote
    vote_for-Delivers vote_step delivers s h =
        let s' = record s { last_voted = mark h.round h.author s.last_voted } in
        let (ext, founded) = delivers s' (new_vote node h) in
        (λ k held. ground (arith, ext k), ground (arith, founded))

    process_header_with-Delivers :
        (vote_step : Core S → Vote → Result S)
        → ((s : Core S) (v : Vote) → Delivers s (vote_step s v))
        → (s : Core S) (h : Header) → Delivers s (process_header_with node vote_step s h)
    unfolding process_header_with have_ancestors
    process_header_with-Delivers vote_step delivers s h =
        let k = digest_key h.id in
        let v = node.codec.serialize_header h in
        let s' = record s {
          processing = mark h.round h.id s.processing;
          store = node.backend.write s.store k v;
        } in
        let (ext, founded) = vote_for-Delivers vote_step delivers s' h in
        (
          λ j held. ground (arith, (durable s.store k j v).1, ext j),
          ground (arith, founded, admit_waits node s.store s.store h),
        )

    process_header-Delivers :
        (n : ℕ) (s : Core S) (h : Header) → Delivers s (process_header node n s h)
    unfolding process_header have_ancestors
    process_header-Delivers zero s h = (λ k held. held, refl)
    process_header-Delivers (suc n) s h =
        process_header_with-Delivers
          (process_vote_with node (process_certificate_with node (process_header node n)))
          (process_vote_with-Delivers (process_certificate_with node (process_header node n))
            (process_certificate_with-Delivers (process_header node n) (process_header-Delivers n)))
          s h

    process_certificate-Delivers :
        (n : ℕ) (s : Core S) (x : Certificate) → Delivers s (process_certificate node n s x)
    unfolding process_certificate
    process_certificate-Delivers n s x =
        process_certificate_with-Delivers (process_header node n) (process_header-Delivers n) s x

    process_vote-Delivers : (n : ℕ) (s : Core S) (v : Vote) → Delivers s (process_vote node n s v)
    unfolding process_vote
    process_vote-Delivers n s v =
        process_vote_with-Delivers (process_certificate node n) (process_certificate-Delivers n) s v

    process_own_header-Delivers :
        (n : ℕ) (s : Core S) (h : Header) → Delivers s (process_own_header node n s h)
    unfolding process_own_header
    process_own_header-Delivers n s h =
        let s' = record s {
          current_header = h;
          votes_aggregator = new_votes;
          cancel_handlers = keep_handlers h.round (other_addresses node) s.cancel_handlers;
        } in
        let message = PrimaryMessage.header h in
        let (ext, founded) = process_header-Delivers n s' h in
        let last = (process_header node n s' h).0.store in
        (
          ext,
          ground (
            arith,
            founded,
            have_ancestors-append node last (broadcast node message)
                (process_header node n s' h).1.0,
            have_ancestors-send node last message (other_addresses node),
          ),
        )

    -- Whatever wakes the loop: the store keeps all that it holds, and each certificate that the
    -- handler hands to the consensus is in the store when the handler returns, with all its parents
    -- that are not genesis certificates; provided that writes are read back and spoil no other key.
    pub handle-Delivers : (s : Core S) (event : Event) → Delivers s (handle node s event)
    unfolding handle have_ancestors
    handle-Delivers s (receive (PrimaryMessage.header h)) =
        let (ext, founded) = process_header-Delivers enough_fuel s h in
        (λ k held. ground (arith, ext k), ground (arith, founded))
    handle-Delivers s (receive (PrimaryMessage.vote v)) =
        let (ext, founded) = process_vote-Delivers enough_fuel s v in
        (λ k held. ground (arith, ext k), ground (arith, founded))
    handle-Delivers s (receive (PrimaryMessage.certificate x)) =
        let (ext, founded) = process_certificate-Delivers enough_fuel s x in
        (λ k held. ground (arith, ext k), ground (arith, founded))
    handle-Delivers s (receive (PrimaryMessage.certificates_request digests requestor)) =
        (λ k held. held, refl)
    handle-Delivers s (looped_header h) = process_header-Delivers enough_fuel s h
    handle-Delivers s (looped_certificate x) = process_certificate-Delivers enough_fuel s x
    handle-Delivers s (own_header h) = process_own_header-Delivers enough_fuel s h

    run-Delivers :
        (s : Core S) (events : List (Round × Event))
        → Extends node s.store (run node s events).0.store
          × (have_ancestors node (run node s events).0.store (run node s events).1 ≡ true)
    unfolding run step cleanup have_ancestors
    run-Delivers s [] = (λ k held. held, refl)
    run-Delivers s ((round, event) ∷ events) =
        let (s', (sent, outcome)) = handle node s event in
        let s'' = cleanup node round s' in
        let (ext, founded) = handle-Delivers s event in
        let (ext', founded') = run-Delivers s'' events in
        let last = (run node s'' events).0.store in
        let same : s''.store ≡ s'.store = ground arith in
        let ext'' : Extends node s'.store last = λ k held. ext' k (rw same held) in
        (
          λ k held. ground (arith, ext k, ext'' k),
          ground (
            arith,
            founded,
            founded',
            have_ancestors-append node last sent (run node s'' events).1,
            have_ancestors-Extends node s'.store last ext'' sent,
          ),
        )
