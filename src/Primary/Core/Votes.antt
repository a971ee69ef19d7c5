-- ===== src/Primary/Core/Votes.antt =====
-- primary/src/core.rs: the votes among the outputs, and the authors that are marked.
use dag_bft_sigmod.Base.{
  ℕ, suc, ◌+◌, Bool, false, ◌&&◌, ◌||◌, List, [], ◌∷◌, ◌++◌, map, ◌≡◌, refl, arith, contains,
  if◌then◌else◌, ◌==◌, ==_iff, nat_eq,
}
use dag_bft_sigmod.Base.Maps.{Map, lookup, lookup-insert, get_or}
use dag_bft_sigmod.Config.{PublicKey, SocketAddr}
use dag_bft_sigmod.Primary.Errors.{Round}
use dag_bft_sigmod.Primary.Node.{PrimaryMessage, Output, send}
use dag_bft_sigmod.Primary.Core.{Core, is_marked, mark}
use dag_bft_sigmod.Primary.Core.Admission.{Admission, suspended}

-- The output is a vote for a header of the author in the round.
abbrev pub is_vote_for : Round → PublicKey → Output → Bool
is_vote_for r a (send _ (PrimaryMessage.vote v)) = v.round == r && v.origin == a
is_vote_for r a _ = false

-- How many votes for headers of the author in the round are sent.
unfoldable pub votes_for : Round → PublicKey → List Output → ℕ
votes_for r a [] = 0
votes_for r a (o ∷ os) = let rest = votes_for r a os in if is_vote_for r a o then suc rest else rest

-- Whether the author is marked as voted for in the round, as a number.
unfoldable pub voted : {S : Type 0} → Round → PublicKey → Core S → ℕ
unfolding is_marked
voted r a s = if is_marked r a s.last_voted then 1 else 0

-- What is sent where the processing of a header waits.
abbrev pub sent_of : Admission → List Output
sent_of (suspended sent) = sent
sent_of _ = []

pub votes_for-append :
    (r : Round) (a : PublicKey) (xs ys : List Output)
    → votes_for r a (xs ++ ys) ≡ votes_for r a xs + votes_for r a ys
unfolding votes_for
votes_for-append r a [] ys = omega arith
votes_for-append r a (x ∷ xs) ys = ground (arith, votes_for-append r a xs ys)

pub votes_for-map :
    (r : Round) (a : PublicKey) (message : PrimaryMessage) (addresses : List SocketAddr)
    → is_vote_for r a (send 0 message) ≡ false
    → votes_for r a (map (λ address. send address message) addresses) ≡ 0
unfolding votes_for
votes_for-map r a message [] h = refl
votes_for-map r a (PrimaryMessage.vote v) (x ∷ xs) h =
    ground (arith, votes_for-map r a (PrimaryMessage.vote v) xs h)
votes_for-map r a (PrimaryMessage.header v) (x ∷ xs) h =
    ground (arith, votes_for-map r a (PrimaryMessage.header v) xs h)
votes_for-map r a (PrimaryMessage.certificate v) (x ∷ xs) h =
    ground (arith, votes_for-map r a (PrimaryMessage.certificate v) xs h)
votes_for-map r a (PrimaryMessage.certificates_request d v) (x ∷ xs) h =
    ground (arith, votes_for-map r a (PrimaryMessage.certificates_request d v) xs h)

pub mark-voted :
    (r r' a a' : ℕ) (m : Map Round (List ℕ))
    → is_marked r a (mark r' a' m) ≡ ((r' == r && a' == a) || is_marked r a m)
unfolding is_marked mark contains
mark-voted r r' a a' m =
    let set = get_or [] (lookup r' m) in
    rw (lookup-insert r' r (if contains set a' then set else a' ∷ set) m)
      (ground (arith, ==_iff r' r, ==_iff a' a))
