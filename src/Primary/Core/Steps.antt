-- ===== src/Primary/Core/Steps.antt =====
-- primary/src/core.rs: the checks of incoming messages, and the body of the main loop.
use dag_bft_sigmod.Base.{
  ℕ, ◌-◌, Bool, true, false, List, [], ◌∷◌, ◌++◌, if◌then◌else◌, ltb, leb, ◌==◌, ◌&&◌,
}
use dag_bft_sigmod.Base.Maps.{retain}
use dag_bft_sigmod.Primary.Errors.{
  Round, DagResult, ok, err, ◌>>◌, ensure, store_error, too_old, unexpected_vote,
}
use dag_bft_sigmod.Primary.Messages.{
  Header, Vote, Certificate, round_of, vote_digest, certificate_digest,
}
use dag_bft_sigmod.Primary.Verify.{verify_header, verify_vote, verify_certificate}
use dag_bft_sigmod.Primary.Node.{Node, PrimaryMessage, Output}
use dag_bft_sigmod.Primary.Core.{
  Core, Outcome, done, failed, panicked, exhausted, Result, process_header, process_vote,
  process_certificate, process_own_header,
}

module _ {S : Type 0} (node : Node S) where
  unfoldable pub sanitize_header : Core S → Header → DagResult (Unit {0})
  unfolding verify_header
  sanitize_header s h =
      ensure (leb s.gc_round h.round) (too_old h.id h.round)
      >> verify_header node.crypto h node.committee

  unfoldable pub sanitize_vote : Core S → Vote → DagResult (Unit {0})
  unfolding verify_vote vote_digest
  sanitize_vote s v =
      ensure (s.current_header.round == v.round) (too_old (vote_digest node.crypto v) v.round)
      >> ensure
          (v.id == s.current_header.id
            && (v.origin == s.current_header.author && v.round == s.current_header.round))
          (unexpected_vote v.id)
      >> verify_vote node.crypto v node.committee

  unfoldable pub sanitize_certificate : Core S → Certificate → DagResult (Unit {0})
  unfolding verify_certificate certificate_digest
  sanitize_certificate s x =
      ensure (leb s.gc_round (round_of x)) (too_old (certificate_digest node.crypto x) (round_of x))
      >> verify_certificate node.crypto x node.committee

-- What wakes the loop: a message of another primary, a header or a certificate that a waiter hands
-- back, or a header of the proposer.
pub data Event : Type 0 where
  receive : PrimaryMessage → Event
  looped_header : Header → Event
  looped_certificate : Certificate → Event
  own_header : Header → Event

-- The handlers call each other no deeper than this.
abbrev pub enough_fuel : ℕ
enough_fuel = 2

module _ {S : Type 0} (node : Node S) where
  abbrev pub if_sane : Core S → DagResult (Unit {0}) → Result S → Result S
  if_sane s (ok _) r = r
  if_sane s (err e) r = (s, ([], failed e))

  unfoldable pub handle : Core S → Event → Result S
  unfolding sanitize_header sanitize_vote sanitize_certificate process_header process_vote
      process_certificate process_own_header
  handle s (receive (PrimaryMessage.header h)) =
      if_sane s (sanitize_header node s h) (process_header node enough_fuel s h)
  handle s (receive (PrimaryMessage.vote v)) =
      if_sane s (sanitize_vote node s v) (process_vote node enough_fuel s v)
  handle s (receive (PrimaryMessage.certificate x)) =
      if_sane s (sanitize_certificate node s x) (process_certificate node enough_fuel s x)
  handle s (receive (PrimaryMessage.certificates_request digests requestor)) = (s, ([], panicked))
  handle s (looped_header h) = process_header node enough_fuel s h
  handle s (looped_certificate x) = process_certificate node enough_fuel s x
  handle s (own_header h) = process_own_header node enough_fuel s h

  -- The clean-up with the round of the consensus.
  unfoldable pub cleanup : Round → Core S → Core S
  unfolding retain
  cleanup round s =
      if ltb node.gc_depth round
      then (let gc_round = round - node.gc_depth in
          record s {
            gc_round = gc_round;
            last_voted = retain (λ k _. leb gc_round k) s.last_voted;
            processing = retain (λ k _. leb gc_round k) s.processing;
            certificates_aggregators = retain (λ k _. leb gc_round k) s.certificates_aggregators;
            cancel_handlers = retain (λ k _. leb gc_round k) s.cancel_handlers;
          })
      else s

  -- A storage failure kills the node; other errors are logged.
  abbrev pub is_fatal : Outcome → Bool
  is_fatal done = false
  is_fatal (failed store_error) = true
  is_fatal (failed e) = false
  is_fatal panicked = true
  is_fatal exhausted = true

  -- One turn of the loop: the state and the outputs, and whether the task is still alive.
  unfoldable pub step : Core S → Round → Event → Core S × (List Output × Bool)
  unfolding handle cleanup
  step s round event =
      let (s', (sent, outcome)) = handle s event in
      if is_fatal outcome then (s', (sent, false)) else (cleanup round s', (sent, true))

  -- The turns of the loop until the task dies, with the consensus round that each one reads.
  unfoldable pub run : Core S → List (Round × Event) → Core S × List Output
  unfolding step
  run s [] = (s, [])
  run s ((round, event) ∷ events) =
      let (s', (sent, alive)) = step s round event in
      elim alive [
        | false ↦ (s', sent)
        | true ↦ let (last, later) = run s' events in (last, sent ++ later)
      ]
