-- ===== src/Primary/Verify.antt =====
-- primary/src/messages.rs: `Header::verify`, `Vote::verify` and `Certificate::verify`.
use dag_bft_sigmod.Base.{
  ℕ, ◌+◌, not, List, [], ◌∷◌, if◌then◌else◌, ltb, leb, ◌==◌, u32, contains, any,
}
use dag_bft_sigmod.Base.Maps.{values}
use dag_bft_sigmod.Config.{PublicKey, WorkerId, Committee, stake, quorum_threshold, worker}
use dag_bft_sigmod.Config
use dag_bft_sigmod.Primary.Errors.{
  Digest, DagResult, ok, err, ◌>>=◌, ◌>>◌, ensure, invalid_signature, invalid_header_id,
  malformed_header, unknown_authority, authority_reuse, certificate_requires_quorum,
}
use dag_bft_sigmod.Primary.Messages.{
  Signature, Crypto, Header, Vote, Certificate, header_digest, vote_digest, certificate_digest,
  same_certificate, genesis,
}

-- `committee.worker(..).map_err(..)` for every worker of the payload.
unfoldable pub check_workers : Committee → PublicKey → Digest → List WorkerId → DagResult (Unit {0})
check_workers c author id [] = ok tt
check_workers c author id (worker_id ∷ ws) =
    let rest = check_workers c author id ws in
    elim (worker c author worker_id) [
      | Config.ok _ ↦ rest
      | Config.err _ ↦ err (malformed_header id)
    ]

-- The loop over a certificate's votes: no author twice, each with voting rights. Gives the weight.
unfoldable pub check_votes :
    Committee → List (PublicKey × Signature) → List PublicKey → ℕ → DagResult ℕ
check_votes c [] used weight = ok weight
check_votes c ((name, _) ∷ votes) used weight =
    let rest = check_votes c votes (name ∷ used) (u32 (weight + stake c name)) in
    do
      ensure (not (contains used name)) (authority_reuse name)
      ensure (ltb 0 (stake c name)) (unknown_authority name)
      rest

-- The votes of a certificate form a quorum.
unfoldable pub check_quorum : Committee → List (PublicKey × Signature) → DagResult (Unit {0})
unfolding check_votes
check_quorum c votes = do
  weight ← check_votes c votes [] 0
  ensure (leb (quorum_threshold c) weight) certificate_requires_quorum

module _ (crypto : Crypto) where
  unfoldable pub verify_header : Header → Committee → DagResult (Unit {0})
  unfolding check_workers
  verify_header h c = do
    ensure (header_digest crypto h == h.id) invalid_header_id
    ensure (ltb 0 (stake c h.author)) (unknown_authority h.author)
    check_workers c h.author h.id (values h.payload)
    ensure (crypto.verify h.signature h.id h.author) invalid_signature

  unfoldable pub verify_vote : Vote → Committee → DagResult (Unit {0})
  verify_vote v c = do
    ensure (ltb 0 (stake c v.author)) (unknown_authority v.author)
    ensure (crypto.verify v.signature (vote_digest crypto v) v.author) invalid_signature

  unfoldable pub verify_certificate : Certificate → Committee → DagResult (Unit {0})
  unfolding verify_header check_quorum
  verify_certificate x c = if any (λ g. same_certificate g x) (genesis c) then ok tt else (do
    verify_header x.header c
    check_quorum c x.votes
    ensure (crypto.verify_batch (certificate_digest crypto x) x.votes) invalid_signature)
