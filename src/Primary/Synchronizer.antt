-- ===== src/Primary/Synchronizer.antt =====
-- primary/src/synchronizer.rs: whether the ancestors and the payload of a header are in the store.
use dag_bft_sigmod.Base.{
  Bool, true, false, none, some, List, [], ◌∷◌, map, if◌then◌else◌, ◌==◌, any, find, nat_eq,
}
use dag_bft_sigmod.Base.Maps.{Map, insert}
use dag_bft_sigmod.Config.{WorkerId, Committee}
use dag_bft_sigmod.Primary.Errors.{Digest, DagResult, ok, err, ◌>>=◌, serialization_error}
use dag_bft_sigmod.Primary.Messages.{Crypto, Header, Certificate, certificate_digest, genesis}
use dag_bft_sigmod.Primary.Node.{
  Node, Output, sync_batches, sync_parents, wait_certificate, digest_key, payload_key,
}

-- The genesis certificates with their digests, as `Synchronizer::new` keeps them.
unfoldable pub genesis_digests : Crypto → Committee → List (Digest × Certificate)
unfolding genesis
genesis_digests crypto c = map (λ x. (certificate_digest crypto x, x)) (genesis c)

module _ {S : Type 0} (node : Node S) (store : S) where
  -- The batches of the payload that the store does not list for their worker.
  unfoldable pub missing_batches : Map Digest WorkerId → DagResult (Map Digest WorkerId)
  unfolding insert
  missing_batches [] = ok []
  missing_batches ((digest, worker_id) ∷ payload) =
      let rest = missing_batches payload in
      do
        found ← node.backend.read store (payload_key digest worker_id)
        missing ← rest
        elim found [ none ↦ ok (insert digest worker_id missing) | some _ ↦ ok missing ]

  -- `true` with the request for the batches, when some are missing.
  unfoldable pub missing_payload : Header → DagResult (Bool × List Output)
  unfolding missing_batches
  missing_payload h = if h.author == node.name then ok (false, []) else (do
    missing ← missing_batches h.payload
    elim missing [ [] ↦ ok (false, []) | x ∷ xs ↦ ok (true, sync_batches (x ∷ xs) h ∷ []) ])

  -- The missing parents and the parents at hand, in order.
  unfoldable pub find_parents : List Digest → DagResult (List Digest × List Certificate)
  unfolding genesis_digests find
  find_parents [] = ok ([], [])
  find_parents (digest ∷ digests) =
      let rest = find_parents digests in
      elim (find (λ g. g.0 == digest) (genesis_digests node.crypto node.committee)) [
        | some (_, x) ↦ (do (missing, parents) ← rest; ok (missing, x ∷ parents))
        | none ↦ (do
          found ← node.backend.read store (digest_key digest)
          elim found [
            | none ↦ (do (missing, parents) ← rest; ok (digest ∷ missing, parents))
            | some bytes ↦ elim (node.codec.deserialize_certificate bytes) [
              | none ↦ err serialization_error
              | some x ↦ (do (missing, parents) ← rest; ok (missing, x ∷ parents))
            ]
          ])
      ]

  -- The parents, or none of them with the request for the missing ones.
  unfoldable pub get_parents : Header → DagResult (List Certificate × List Output)
  unfolding find_parents
  get_parents h = do
    (missing, parents) ← find_parents h.parents
    elim missing [ [] ↦ ok (parents, []) | x ∷ xs ↦ ok ([], sync_parents (x ∷ xs) h ∷ []) ]

  unfoldable pub has_parents : List Digest → DagResult Bool
  unfolding genesis_digests any
  has_parents [] = ok true
  has_parents (digest ∷ digests) =
      let rest = has_parents digests in
      if any (λ g. g.0 == digest) (genesis_digests node.crypto node.committee) then rest else (do
        found ← node.backend.read store (digest_key digest)
        elim found [ none ↦ ok false | some _ ↦ rest ])

  unfoldable pub deliver_certificate : Certificate → DagResult (Bool × List Output)
  unfolding has_parents
  deliver_certificate x = do
    all ← has_parents x.header.parents
    ok (if all then (true, []) else (false, wait_certificate x ∷ []))
