-- ===== src/Primary/Node.antt =====
-- What a primary's tasks share: its identity, its libraries, its store, and the messages it sends.
-- `bincode` and the storage backend are not part of these files: a `Codec` and a `Backend` give them.
use dag_bft_sigmod.Base.{ℕ, Bool, Option, List, ◌++◌}
use dag_bft_sigmod.Base.Maps.{Map}
use dag_bft_sigmod.Config.{PublicKey, WorkerId, SocketAddr, Committee}
use dag_bft_sigmod.Store.{Key, Value}
use dag_bft_sigmod.Primary.Errors.{Digest, Round, DagResult}
use dag_bft_sigmod.Primary.Messages.{
  Signature, Crypto, Header, Vote, Certificate, le_bytes, be_bytes, vote_bytes,
}

-- `bincode::serialize` and `bincode::deserialize`; `none` is a failure to deserialize.
pub record Codec : Type 0 where
  pub serialize_header : Header → Value
  pub serialize_certificate : Certificate → Value
  pub deserialize_certificate : Value → Option Certificate
  pub deserialize_counts : Value → Option (Map ℕ ℕ)

-- `Store::read` and `Store::write`, as the storage task answers them.
pub record Backend (S : Type 0) : Type 0 where
  pub read : S → Key → DagResult (Option Value)
  pub write : S → Key → Value → S

pub record Node (S : Type 0) : Type 0 where
  pub name : PublicKey
  pub committee : Committee
  pub gc_depth : Round
  pub baseline_mode : Bool
  pub crypto : Crypto
  pub sign : Digest → Signature
  pub codec : Codec
  pub backend : Backend S

pub data PrimaryMessage : Type 0 where
  header : Header → PrimaryMessage
  vote : Vote → PrimaryMessage
  certificate : Certificate → PrimaryMessage
  certificates_request : List Digest → PublicKey → PrimaryMessage

-- What the core sends: to other primaries, to the two waiters, the proposer and the consensus.
pub data Output : Type 0 where
  send : SocketAddr → PrimaryMessage → Output
  sync_batches : Map Digest WorkerId → Header → Output
  sync_parents : List Digest → Header → Output
  wait_certificate : Certificate → Output
  to_proposer : List Digest → Round → Output
  to_consensus : Certificate → Output

-- `digest.to_vec()`.
abbrev pub digest_key : Digest → Key
digest_key digest = be_bytes 32 digest

-- `[digest.as_ref(), &worker_id.to_le_bytes()].concat()`.
abbrev pub payload_key : Digest → WorkerId → Key
payload_key digest worker_id = be_bytes 32 digest ++ le_bytes 4 worker_id

module _ {S : Type 0} (node : Node S) where
  -- `Vote::new`.
  unfoldable pub new_vote : Header → Vote
  unfolding vote_bytes
  new_vote h = record {
    id = h.id;
    round = h.round;
    origin = h.author;
    author = node.name;
    signature = node.sign (node.crypto.sha512 (vote_bytes h.id h.round h.author));
  }
