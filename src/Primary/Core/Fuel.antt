-- ===== src/Primary/Core/Fuel.antt =====
-- primary/src/core.rs: the handlers call each other and come to an end.
use dag_bft_sigmod.Base.{
  ℕ, suc, true, [], ◌∷◌, ◌++◌, ◌≡◌, ◌≢◌, refl, ap, ◌∙◌, arith, contains, ==_refl, nat_eq,
}
use dag_bft_sigmod.Primary.Messages.{Header, Vote, Certificate}
use dag_bft_sigmod.Primary.Aggregators.{append_vote}
use dag_bft_sigmod.Primary.Node.{Node, PrimaryMessage, new_vote, digest_key}
use dag_bft_sigmod.Primary.Core.{
  Core, exhausted, Result, deliver, accept_certificate, process_certificate_with, process_vote_with,
  vote_for, process_header_with, process_header, process_certificate, process_vote,
  process_own_header, mark, keep_handlers, other_addresses,
}
use dag_bft_sigmod.Primary.Core.Steps.{
  handle, Event, receive, looped_header, looped_certificate, own_header,
}

-- The handler came to an end.
abbrev pub Ends : {S : Type 0} → Result S → Type 0
Ends r = r.1.1 ≢ exhausted

module _ {S : Type 0} (node : Node S) where
  -- Our vote is counted already.
  abbrev Counted : Core S → Type 0
  Counted s = contains s.votes_aggregator.used node.name ≡ true

  deliver-Ends : (s : Core S) (x : Certificate) → Ends (deliver node s x)
  unfolding deliver accept_certificate
  deliver-Ends s x = ground arith

  process_vote_again :
      (certificate_step : Core S → Certificate → Result S) (s : Core S) (v : Vote)
      → v.author ≡ node.name
      → Counted s
      → Ends (process_vote_with node certificate_step s v)
  unfolding process_vote_with append_vote
  process_vote_again step s v e k = ground arith

  vote_for-Ends :
      (vote_step : Core S → Vote → Result S) (s : Core S) (h : Header)
      → ((s' : Core S)
          → s'.votes_aggregator ≡ s.votes_aggregator
          → Ends (vote_step s' (new_vote node h)))
      → Ends (vote_for node vote_step s h)
  unfolding vote_for
  vote_for-Ends step s h ends =
      ground (arith, ends (record s { last_voted = mark h.round h.author s.last_voted }) refl)

  process_header_with-Ends :
      (vote_step : Core S → Vote → Result S) (s : Core S) (h : Header)
      → ((s' : Core S)
          → s'.votes_aggregator ≡ s.votes_aggregator
          → Ends (vote_step s' (new_vote node h)))
      → Ends (process_header_with node vote_step s h)
  unfolding process_header_with
  process_header_with-Ends step s h ends =
      let s' = record s {
        processing = mark h.round h.id s.processing;
        store = node.backend.write s.store (digest_key h.id) (node.codec.serialize_header h);
      } in
      ground (arith, vote_for-Ends step s' h ends)

  process_certificate_with-Ends :
      (header_step : Core S → Header → Result S) (s : Core S) (x : Certificate)
      → Ends (header_step s x.header)
      → Ends (process_certificate_with node header_step s x)
  unfolding process_certificate_with
  process_certificate_with-Ends step s x ends =
      ground (arith, ends, deliver-Ends s x, deliver-Ends (step s x.header).0 x)

  -- With our vote counted, one level is enough.
  process_header_again :
      (n : ℕ) (s : Core S) (h : Header) → Counted s → Ends (process_header node (suc n) s h)
  unfolding process_header new_vote
  process_header_again n s h k =
      process_header_with-Ends
        (process_vote_with node (process_certificate_with node (process_header node n))) s h
        (λ s' e.
          process_vote_again (process_certificate_with node (process_header node n)) s'
            (new_vote node h) refl (ap (λ a. contains a.used node.name) e ∙ k))

  process_vote_with-Ends :
      (certificate_step : Core S → Certificate → Result S) (s : Core S) (v : Vote)
      → ((s' : Core S) (x : Certificate)
          → contains s'.votes_aggregator.used v.author ≡ true
          → Ends (certificate_step s' x))
      → Ends (process_vote_with node certificate_step s v)
  unfolding process_vote_with append_vote contains
  process_vote_with-Ends step s v ends =
      let votes = s.votes_aggregator.votes ++ (v.author, v.signature) ∷ [] in
      let s' = record s {
        votes_aggregator = record {
          weight = 0;
          votes = votes;
          used = v.author ∷ s.votes_aggregator.used;
        };
        cancel_handlers =
            keep_handlers s.current_header.round (other_addresses node) s.cancel_handlers;
      } in
      ground (
        arith,
        ends s' (record { header = s.current_header; votes = votes }) (rw (==_refl v.author) refl),
      )

  process_header-Ends :
      (n : ℕ) (s : Core S) (h : Header) → Ends (process_header node (suc (suc n)) s h)
  unfolding process_header new_vote
  process_header-Ends n s h =
      process_header_with-Ends
        (process_vote_with node (process_certificate_with node (process_header node (suc n)))) s h
        (λ s' e.
          process_vote_with-Ends (process_certificate_with node (process_header node (suc n))) s'
            (new_vote node h)
            (λ s'' x k.
              process_certificate_with-Ends (process_header node (suc n)) s'' x
                (process_header_again n s'' x.header k)))

  process_certificate-Ends :
      (n : ℕ) (s : Core S) (x : Certificate) → Ends (process_certificate node (suc (suc n)) s x)
  unfolding process_certificate
  process_certificate-Ends n s x =
      process_certificate_with-Ends (process_header node (suc (suc n))) s x
        (process_header-Ends n s x.header)

  process_vote-Ends : (n : ℕ) (s : Core S) (v : Vote) → Ends (process_vote node (suc (suc n)) s v)
  unfolding process_vote
  process_vote-Ends n s v =
      process_vote_with-Ends (process_certificate node (suc (suc n))) s v
        (λ s' x _. process_certificate-Ends n s' x)

  process_own_header-Ends :
      (n : ℕ) (s : Core S) (h : Header) → Ends (process_own_header node (suc (suc n)) s h)
  unfolding process_own_header
  process_own_header-Ends n s h = process_header-Ends n _ h

  -- Whatever wakes the loop, its handler comes to an end: the fuel is enough.
  pub handle-Ends : (s : Core S) (event : Event) → Ends (handle node s event)
  unfolding handle
  handle-Ends s (receive (PrimaryMessage.header h)) = ground (arith, process_header-Ends 0 s h)
  handle-Ends s (receive (PrimaryMessage.vote v)) = ground (arith, process_vote-Ends 0 s v)
  handle-Ends s (receive (PrimaryMessage.certificate x)) =
      ground (arith, process_certificate-Ends 0 s x)
  handle-Ends s (receive (PrimaryMessage.certificates_request digests requestor)) = ground arith
  handle-Ends s (looped_header h) = process_header-Ends 0 s h
  handle-Ends s (looped_certificate x) = process_certificate-Ends 0 s x
  handle-Ends s (own_header h) = process_own_header-Ends 0 s h
