-- ===== src/Primary/Aggregators.antt =====
-- primary/src/aggregators.rs: votes on a header become a certificate, certificates of a round
-- become the parents of the next header.
pub mod Once
pub mod Quorum
use dag_bft_sigmod.Base.{
  ℕ, ◌+◌, Option, none, some, List, [], ◌∷◌, ◌++◌, if◌then◌else◌, leb, u32, contains,
}
use dag_bft_sigmod.Config.{PublicKey, Stake, Committee, stake, quorum_threshold}
use dag_bft_sigmod.Primary.Errors.{Digest, DagResult, ok, err, authority_reuse}
use dag_bft_sigmod.Primary.Messages.{
  Signature, Crypto, Header, Vote, Certificate, origin, certificate_digest,
}

pub record VotesAggregator : Type 0 where
  pub weight : Stake
  pub votes : List (PublicKey × Signature)
  pub used : List PublicKey

unfoldable pub new_votes : VotesAggregator
new_votes = record { weight = 0; votes = []; used = [] }

unfoldable pub append_vote :
    VotesAggregator → Vote → Committee → Header → VotesAggregator × DagResult (Option Certificate)
append_vote a vote c header =
    if contains a.used vote.author
    then (a, err (authority_reuse vote.author))
    else let votes = a.votes ++ (vote.author, vote.signature) ∷ [] in
      let weight = u32 (a.weight + stake c vote.author) in
      let used = vote.author ∷ a.used in
      if leb (quorum_threshold c) weight
      then (
        record { weight = 0; votes = votes; used = used },
        ok (some (record { header = header; votes = votes })),
      )
      else (record { weight = weight; votes = votes; used = used }, ok none)

pub record CertificatesAggregator : Type 0 where
  pub weight : Stake
  pub certificates : List Digest
  pub used : List PublicKey

unfoldable pub new_certificates : CertificatesAggregator
new_certificates = record { weight = 0; certificates = []; used = [] }

unfoldable pub append_certificate :
    Crypto
    → CertificatesAggregator
    → Certificate
    → Committee
    → CertificatesAggregator × DagResult (Option (List Digest))
append_certificate crypto a certificate c =
    if contains a.used (origin certificate)
    then (a, ok none)
    else let certificates = a.certificates ++ certificate_digest crypto certificate ∷ [] in
      let weight = u32 (a.weight + stake c (origin certificate)) in
      let used = origin certificate ∷ a.used in
      if leb (quorum_threshold c) weight
      then (record { weight = 0; certificates = []; used = used }, ok (some certificates))
      else (record { weight = weight; certificates = certificates; used = used }, ok none)
