-- ===== src/Primary/Proposer/Rounds.antt =====
-- primary/src/proposer.rs: one header in a round.
use dag_bft_sigmod.Base.{
  ℕ, suc, ◌≤◌, ◌<◌, Bool, false, List, [], ◌∷◌, ◌++◌, ◌≡◌, arith, All, if◌then◌else◌, is_empty, not,
  leb, ◌||◌, ◌&&◌, Bool-cases, inl, inr,
}
use dag_bft_sigmod.Config.{PublicKey}
use dag_bft_sigmod.Primary.Errors.{Digest, Round}
use dag_bft_sigmod.Primary.Messages.{Signature, Crypto, Header}
use dag_bft_sigmod.Primary.Proposer.{
  Proposer, ProposerEvent, parents_from_core, batch_from_worker, timer, make_header, propose,
  receive_event, run_proposer, new_header,
}

-- The rounds of the headers ascend strictly, from the bound on.
abbrev pub Ascending : Round → List Header → Type 0
Ascending bound [] = Unit
Ascending bound (h ∷ hs) = (bound ≤ h.round) × Ascending (suc h.round) hs

-- The first round that a later header can have.
unfoldable pub next_round : Proposer → Round
next_round s = if is_empty s.last_parents then suc s.round else s.round

-- The round can be incremented.
abbrev pub FitsRound : Bool × (ℕ × ProposerEvent) → Type 0
FitsRound (_, (_, parents_from_core parents round)) = round < 18446744073709551615
FitsRound (_, (_, batch_from_worker digest worker_id counts delay)) = Unit
FitsRound (_, (_, timer)) = Unit

Ascending-weaken : (a b : Round) (hs : List Header) → a ≤ b → Ascending b hs → Ascending a hs
Ascending-weaken a b [] le h = tt
Ascending-weaken a b (x ∷ hs) le (h, k) = (omega arith, k)

module _ (crypto : Crypto) (sign : Digest → Signature) (name : PublicKey) (header_size : ℕ) where
  receive_event-next_round :
      (s : Proposer) (t : Bool) (now : ℕ) (event : ProposerEvent)
      → FitsRound (t, (now, event))
      → next_round s ≤ next_round (receive_event crypto sign name header_size s event)
  unfolding next_round receive_event
  receive_event-next_round s t now (parents_from_core parents round) fits = ground arith
  receive_event-next_round s t now (batch_from_worker digest worker_id counts delay) fits =
      omega arith
  receive_event-next_round s t now timer fits = omega arith

  propose-Ascending :
      (t : Bool) (now : ℕ) (s : Proposer) (later : List Header)
      → Ascending (next_round (propose crypto sign name header_size t now s).0) later
      → Ascending (next_round s) ((propose crypto sign name header_size t now s).1 ++ later)
  unfolding propose make_header new_header next_round
  propose-Ascending t now s later h =
      elim (Bool-cases ((t || leb header_size s.payload_size) && not (is_empty s.last_parents))) [
        | inl e ↦
            (let some_parents : is_empty s.last_parents ≡ false = ground arith in
              rw e (rw some_parents (omega arith, rw e at h)))
        | inr e ↦ rw e (rw e at h)
      ]

  -- The headers that a proposer makes have strictly ascending rounds: there is at most one of them
  -- in a round, and none in a round without new parents.
  pub run_proposer-Ascending :
      (s : Proposer) (events : List (Bool × (ℕ × ProposerEvent)))
      → All FitsRound events
      → Ascending (next_round s) (run_proposer crypto sign name header_size s events).1
  unfolding run_proposer
  run_proposer-Ascending s [] fits = tt
  run_proposer-Ascending s ((t, (now, event)) ∷ events) fits =
      let (s', headers) = propose crypto sign name header_size t now s in
      let s'' = receive_event crypto sign name header_size s' event in
      propose-Ascending t now s _ (
        Ascending-weaken (next_round s') (next_round s'') _
          (receive_event-next_round s' t now event fits.0)
          (run_proposer-Ascending s'' events fits.1))
