-- ===== src/Primary/Core/Ancestors.antt =====
-- primary/src/core.rs: the certificates in the store, and those among the outputs.
use dag_bft_sigmod.Base.{
  Bool, true, false, ◌&&◌, ◌||◌, none, some, List, [], ◌∷◌, ◌++◌, map, ◌≡◌, refl, arith, ◌==◌, any,
  nat_eq,
}
use dag_bft_sigmod.Config.{SocketAddr}
use dag_bft_sigmod.Store.{Key, Value}
use dag_bft_sigmod.Primary.Errors.{Digest, ok, err}
use dag_bft_sigmod.Primary.Messages.{Header, certificate_digest}
use dag_bft_sigmod.Primary.Node.{
  Node, PrimaryMessage, Output, send, sync_batches, sync_parents, wait_certificate, to_proposer,
  to_consensus, digest_key,
}
use dag_bft_sigmod.Primary.Synchronizer.{get_parents, missing_payload, has_parents, genesis_digests}
use dag_bft_sigmod.Primary.Core.Admission.{Admission, admit, suspended}

module _ {S : Type 0} (node : Node S) where
  -- The store holds a value under the key.
  unfoldable pub holds : S → Key → Bool
  holds store k = elim (node.backend.read store k) [
    | ok (some v) ↦ true
    | ok none ↦ false
    | err e ↦ false
  ]

  -- What the core relies on: a write is read back, and keeps what is under other keys.
  abbrev pub Durable : Type 0
  Durable =
      (store : S) (k j : Key) (v : Value)
      → (holds (node.backend.write store k v) k ≡ true)
        × (holds store j ≡ true → holds (node.backend.write store k v) j ≡ true)

  -- Everything that one store holds is in the other.
  abbrev pub Extends : S → S → Type 0
  Extends store store' = (k : Key) → holds store k ≡ true → holds store' k ≡ true

  unfoldable pub holds_parents : S → List Digest → Bool
  unfolding holds genesis_digests any
  holds_parents store [] = true
  holds_parents store (d ∷ ds) =
      (any (λ g. g.0 == d) (genesis_digests node.crypto node.committee)
        || holds store (digest_key d))
      && holds_parents store ds

  -- A certificate handed to the consensus is in the store, and so are its parents, but for the
  -- genesis.
  unfoldable pub has_ancestors : S → Output → Bool
  unfolding holds holds_parents certificate_digest
  has_ancestors store (to_consensus x) =
      holds store (digest_key (certificate_digest node.crypto x))
      && holds_parents store x.header.parents
  has_ancestors store _ = true

  unfoldable pub have_ancestors : S → List Output → Bool
  unfolding has_ancestors
  have_ancestors store [] = true
  have_ancestors store (o ∷ os) = has_ancestors store o && have_ancestors store os

  pub has_parents-holds_parents :
      (store : S) (ds : List Digest)
      → has_parents node store ds ≡ ok true
      → holds_parents store ds ≡ true
  unfolding has_parents holds_parents holds
  has_parents-holds_parents store [] h = refl
  has_parents-holds_parents store (d ∷ ds) h = ground (arith, has_parents-holds_parents store ds)

  module _ (store store' : S) (ext : Extends store store') where
    pub holds_parents-Extends :
        (ds : List Digest) → holds_parents store ds ≡ true → holds_parents store' ds ≡ true
    unfolding holds_parents
    holds_parents-Extends [] h = refl
    holds_parents-Extends (d ∷ ds) h = ground (arith, ext (digest_key d), holds_parents-Extends ds)

    pub has_ancestors-Extends :
        (o : Output) → has_ancestors store o ≡ true → has_ancestors store' o ≡ true
    unfolding has_ancestors
    has_ancestors-Extends (to_consensus x) h = ground (
      arith,
      ext (digest_key (certificate_digest node.crypto x)),
      holds_parents-Extends x.header.parents,
    )
    has_ancestors-Extends (send a m) h = refl
    has_ancestors-Extends (sync_batches a m) h = refl
    has_ancestors-Extends (sync_parents a m) h = refl
    has_ancestors-Extends (wait_certificate a) h = refl
    has_ancestors-Extends (to_proposer a m) h = refl

    pub have_ancestors-Extends :
        (os : List Output) → have_ancestors store os ≡ true → have_ancestors store' os ≡ true
    unfolding have_ancestors
    have_ancestors-Extends [] h = refl
    have_ancestors-Extends (o ∷ os) h =
        ground (arith, has_ancestors-Extends o, have_ancestors-Extends os)

  pub have_ancestors-append :
      (store : S) (xs ys : List Output)
      → have_ancestors store (xs ++ ys) ≡ (have_ancestors store xs && have_ancestors store ys)
  unfolding have_ancestors
  have_ancestors-append store [] ys = refl
  have_ancestors-append store (x ∷ xs) ys = ground (arith, have_ancestors-append store xs ys)

  pub have_ancestors-send :
      (store : S) (m : PrimaryMessage) (addresses : List SocketAddr)
      → have_ancestors store (map (λ address. send address m) addresses) ≡ true
  unfolding have_ancestors has_ancestors
  have_ancestors-send store m [] = refl
  have_ancestors-send store m (x ∷ xs) = have_ancestors-send store m xs

  -- What is sent where the processing of a header waits.
  abbrev pub sent_of : Admission → List Output
  sent_of (suspended sent) = sent
  sent_of _ = []

  pub admit_waits :
      (store store' : S) (h : Header) → have_ancestors store' (sent_of (admit node store h)) ≡ true
  unfolding admit get_parents missing_payload have_ancestors has_ancestors
  admit_waits store store' h = ground arith
