-- ===== src/Primary/Messages.antt =====
-- primary/src/messages.rs: headers, votes, certificates, their digests and their verification.
-- SHA-512 and ed25519 are not part of the repository: a `Crypto` gives them.
use dag_bft_sigmod.Base.{ℕ, zero, suc, ◌/◌, ◌%◌, Bool, ◌&&◌, List, [], ◌∷◌, ◌++◌, map, ◌==◌, nat_eq}
use dag_bft_sigmod.Base.Maps.{Map, keys}
use dag_bft_sigmod.Config.{PublicKey, WorkerId, Committee}
use dag_bft_sigmod.Primary.Errors.{Digest, Round}

-- The 64 bytes of a signature, as the number that they spell.
abbrev pub Signature : Type 0
Signature = ℕ

-- The cryptographic library: the first 32 bytes of SHA-512, strict verification of one signature,
-- and verification of a batch of signatures over one digest.
pub record Crypto : Type 0 where
  pub sha512 : List ℕ → Digest
  pub verify : Signature → Digest → PublicKey → Bool
  pub verify_batch : Digest → List (PublicKey × Signature) → Bool

-- `payload` and `account_counts` are in key order, `parents` in order: they are `BTreeMap`,
-- a `HashMap` that `digest` sorts, and `BTreeSet`.
pub record Header : Type 0 where
  pub author : PublicKey
  pub round : Round
  pub payload : Map Digest WorkerId
  pub parents : List Digest
  pub account_counts : Map ℕ ℕ
  pub avg_queue_delay_ms : ℕ
  pub created_at : ℕ
  pub id : Digest
  pub signature : Signature

unfoldable pub default_header : Header
default_header = record {
  author = 0;
  round = 0;
  payload = [];
  parents = [];
  account_counts = [];
  avg_queue_delay_ms = 0;
  created_at = 0;
  id = 0;
  signature = 0;
}

-- The `n` bytes of a number, least significant first (`to_le_bytes`).
unfoldable pub le_bytes : ℕ → ℕ → List ℕ
le_bytes zero x = []
le_bytes (suc n) x = x % 256 ∷ le_bytes n (x / 256)

-- The `n` bytes of a number, most significant first: the bytes of a key or a digest.
unfoldable pub be_bytes : ℕ → ℕ → List ℕ
be_bytes zero x = []
be_bytes (suc n) x = be_bytes n (x / 256) ++ x % 256 ∷ []

unfoldable pub payload_bytes : Map Digest WorkerId → List ℕ
unfolding le_bytes be_bytes
payload_bytes [] = []
payload_bytes ((x, y) ∷ m) = be_bytes 32 x ++ (le_bytes 4 y ++ payload_bytes m)

unfoldable pub count_bytes : Map ℕ ℕ → List ℕ
unfolding le_bytes
count_bytes [] = []
count_bytes ((account_id, count) ∷ m) = le_bytes 4 account_id ++ (le_bytes 2 count ++ count_bytes m)

unfoldable pub parent_bytes : List Digest → List ℕ
unfolding be_bytes
parent_bytes [] = []
parent_bytes (x ∷ xs) = be_bytes 32 x ++ parent_bytes xs

-- What `Header::digest` feeds to the hasher.
unfoldable pub header_bytes : Header → List ℕ
unfolding payload_bytes count_bytes parent_bytes
header_bytes h =
    be_bytes 32 h.author
    ++ (le_bytes 8 h.round
        ++ (payload_bytes h.payload
            ++ (count_bytes h.account_counts
                ++ (le_bytes 8 h.avg_queue_delay_ms
                    ++ (parent_bytes h.parents ++ le_bytes 8 h.created_at)))))

pub record Vote : Type 0 where
  pub id : Digest
  pub round : Round
  pub origin : PublicKey
  pub author : PublicKey
  pub signature : Signature

-- What `Vote::digest` and `Certificate::digest` feed to the hasher.
unfoldable pub vote_bytes : Digest → Round → PublicKey → List ℕ
unfolding le_bytes be_bytes
vote_bytes id round origin = be_bytes 32 id ++ (le_bytes 8 round ++ be_bytes 32 origin)

pub record Certificate : Type 0 where
  pub header : Header
  pub votes : List (PublicKey × Signature)

abbrev pub round_of : Certificate → Round
round_of c = c.header.round

abbrev pub origin : Certificate → PublicKey
origin c = c.header.author

-- `PartialEq for Certificate`.
unfoldable pub same_certificate : Certificate → Certificate → Bool
same_certificate x y =
    x.header.id == y.header.id && (round_of x == round_of y && origin x == origin y)

unfoldable pub genesis_certificate : PublicKey → Certificate
unfolding default_header
genesis_certificate name = record { header = record default_header { author = name }; votes = [] }

unfoldable pub genesis : Committee → List Certificate
unfolding genesis_certificate
genesis c = map genesis_certificate (keys c.authorities)

module _ (crypto : Crypto) where
  unfoldable pub header_digest : Header → Digest
  unfolding header_bytes
  header_digest h = crypto.sha512 (header_bytes h)

  unfoldable pub vote_digest : Vote → Digest
  unfolding vote_bytes
  vote_digest v = crypto.sha512 (vote_bytes v.id v.round v.origin)

  unfoldable pub certificate_digest : Certificate → Digest
  unfolding vote_bytes
  certificate_digest c = crypto.sha512 (vote_bytes c.header.id (round_of c) (origin c))
