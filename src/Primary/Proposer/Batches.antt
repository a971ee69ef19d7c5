-- ===== src/Primary/Proposer/Batches.antt =====
-- primary/src/proposer.rs: no batch is lost, and none is made up.
use dag_bft_sigmod.Base.{ℕ, Bool, false, ◌||◌, List, [], ◌∷◌, ◌++◌, ◌≡◌, refl, arith, ◌==◌}
use dag_bft_sigmod.Base.Maps.{Map}
use dag_bft_sigmod.Config.{PublicKey, WorkerId}
use dag_bft_sigmod.Primary.Errors.{Digest}
use dag_bft_sigmod.Primary.Messages.{Signature, Crypto, Header}
use dag_bft_sigmod.Primary.Proposer.{
  Proposer, ProposerEvent, parents_from_core, batch_from_worker, timer, make_header, propose,
  receive_event, run_proposer, new_header, insert_sorted, collect_map,
}

-- The digest is one of the keys.
unfoldable pub listed : Digest → Map Digest WorkerId → Bool
listed d [] = false
listed d ((k, _) ∷ m) = k == d || listed d m

-- Some header has the digest in its payload.
unfoldable pub proposed : Digest → List Header → Bool
unfolding listed
proposed d [] = false
proposed d (h ∷ hs) = listed d h.payload || proposed d hs

-- A worker reports the digest.
unfoldable pub reported : Digest → List (Bool × (ℕ × ProposerEvent)) → Bool
reported d [] = false
reported d ((_, (_, batch_from_worker digest worker_id counts delay)) ∷ events) =
    digest == d || reported d events
reported d ((_, (_, parents_from_core parents round)) ∷ events) = reported d events
reported d ((_, (_, timer)) ∷ events) = reported d events

listed-insert_sorted :
    (d k v : ℕ) (m : Map ℕ ℕ) → listed d (insert_sorted k v m) ≡ (k == d || listed d m)
unfolding listed insert_sorted
listed-insert_sorted d k v [] = refl
listed-insert_sorted d k v ((j, w) ∷ m) = ground (arith, listed-insert_sorted d k v m)

listed-collect_map :
    (d : ℕ) (m kvs : Map ℕ ℕ) → listed d (collect_map m kvs) ≡ (listed d m || listed d kvs)
unfolding listed collect_map
listed-collect_map d m [] = ground arith
listed-collect_map d m ((k, v) ∷ kvs) =
    ground (arith, listed-collect_map d (insert_sorted k v m) kvs, listed-insert_sorted d k v m)

listed-append : (d : ℕ) (xs ys : Map ℕ ℕ) → listed d (xs ++ ys) ≡ (listed d xs || listed d ys)
unfolding listed
listed-append d [] ys = refl
listed-append d (x ∷ xs) ys = ground (arith, listed-append d xs ys)

proposed-append :
    (d : ℕ) (xs ys : List Header) → proposed d (xs ++ ys) ≡ (proposed d xs || proposed d ys)
unfolding proposed
proposed-append d [] ys = refl
proposed-append d (x ∷ xs) ys = ground (arith, proposed-append d xs ys)

module _ (crypto : Crypto) (sign : Digest → Signature) (name : PublicKey) (header_size : ℕ) where
  propose-listed :
      (d : Digest) (t : Bool) (now : ℕ) (s : Proposer)
      → (proposed d (propose crypto sign name header_size t now s).1
          || listed d (propose crypto sign name header_size t now s).0.digests)
        ≡ listed d s.digests
  unfolding propose make_header new_header proposed listed
  propose-listed d t now s = ground (arith, listed-collect_map d [] s.digests)

  -- A digest is in the payload of a proposed header or still pending exactly when it was pending at
  -- first or a worker reported it.
  pub run_proposer-keeps_batches :
      (d : Digest) (s : Proposer) (events : List (Bool × (ℕ × ProposerEvent)))
      → (proposed d (run_proposer crypto sign name header_size s events).1
          || listed d (run_proposer crypto sign name header_size s events).0.digests)
        ≡ (listed d s.digests || reported d events)
  unfolding run_proposer receive_event proposed reported listed
  run_proposer-keeps_batches d s [] = ground arith
  run_proposer-keeps_batches d s ((t, (now, parents_from_core parents round)) ∷ events) =
      let (s', headers) = propose crypto sign name header_size t now s in
      let s'' = receive_event crypto sign name header_size s' (parents_from_core parents round) in
      let later = (run_proposer crypto sign name header_size s'' events).1 in
      ground (
        arith,
        propose-listed d t now s,
        run_proposer-keeps_batches d s'' events,
        proposed-append d headers later,
      )
  run_proposer-keeps_batches d s
        ((t, (now, batch_from_worker digest worker_id counts delay)) ∷ events) =
      let (s', headers) = propose crypto sign name header_size t now s in
      let s'' =
        receive_event crypto sign name header_size s'
          (batch_from_worker digest worker_id counts delay) in
      let later = (run_proposer crypto sign name header_size s'' events).1 in
      ground (
        arith,
        propose-listed d t now s,
        run_proposer-keeps_batches d s'' events,
        proposed-append d headers later,
        listed-append d s'.digests ((digest, worker_id) ∷ []),
      )
  run_proposer-keeps_batches d s ((t, (now, timer)) ∷ events) =
      let (s', headers) = propose crypto sign name header_size t now s in
      let s'' = receive_event crypto sign name header_size s' (timer) in
      let later = (run_proposer crypto sign name header_size s'' events).1 in
      ground (
        arith,
        propose-listed d t now s,
        run_proposer-keeps_batches d s'' events,
        proposed-append d headers later,
      )
