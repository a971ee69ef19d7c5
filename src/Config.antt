-- ===== src/Config.antt =====
-- config/src/lib.rs: the committee, its stakes and thresholds, and the lookups of addresses.
-- A `PublicKey` and a `SocketAddr` are the numbers that their bytes spell, so the order of keys is
-- the order of the numbers. `BTreeMap`s are association lists in key order.
pub mod Thresholds
pub mod Examples
use dag_bft_sigmod.Base.{
  ℕ, ◌+◌, ◌*◌, ◌/◌, not, ◌&&◌, Option, none, some, List, [], ◌∷◌, if◌then◌else◌, ltb, leb, ◌==◌,
  u32, u64, length, nat_eq,
}
use dag_bft_sigmod.Base.Maps.{Map, lookup, values}

abbrev pub PublicKey : Type 0
PublicKey = ℕ

abbrev pub SocketAddr : Type 0
SocketAddr = ℕ

abbrev pub Stake : Type 0
Stake = ℕ

abbrev pub WorkerId : Type 0
WorkerId = ℕ

abbrev pub ExecutorId : Type 0
ExecutorId = ℕ

pub data ConfigError : Type 0 where
  not_in_committee : PublicKey → ConfigError
  unknown_worker : WorkerId → ConfigError
  unknown_executor : ExecutorId → ConfigError

pub data ConfigResult (A : Type 0) : Type 0 where
  ok : A → ConfigResult A
  err : ConfigError → ConfigResult A

infixl 5 ◌>>=◌
abbrev pub ◌>>=◌ : {A B : Type 0} → ConfigResult A → (A → ConfigResult B) → ConfigResult B
ok a >>= f = f a
err e >>= f = err e

abbrev pub ok_or : {A : Type 0} → Option A → ConfigError → ConfigResult A
ok_or none e = err e
ok_or (some a) e = ok a

pub record PrimaryAddresses : Type 0 where
  pub primary_to_primary : SocketAddr
  pub worker_to_primary : SocketAddr
  pub executor_to_primary : SocketAddr

pub record ExecutorAddresses : Type 0 where
  pub worker_to_executor : SocketAddr
  pub executor_to_executor : SocketAddr

pub record WorkerAddresses : Type 0 where
  pub transactions : SocketAddr
  pub worker_to_worker : SocketAddr
  pub primary_to_worker : SocketAddr

pub record Authority : Type 0 where
  pub stake : Stake
  pub primary : PrimaryAddresses
  pub workers : Map WorkerId WorkerAddresses
  pub executors : Map ExecutorId ExecutorAddresses
  pub client_reply : SocketAddr
  pub capacity_by_bw : ℕ

pub record Committee : Type 0 where
  pub authorities : Map PublicKey Authority
  pub latency_matrix : Map PublicKey (Map PublicKey ℕ)
  pub account_ranges : Map PublicKey (ℕ × ℕ)
  pub client_reply_addresses : Map ℕ SocketAddr

-- `account_ranges.iter().find_map(..)`.
unfoldable pub home_validator_in : Map PublicKey (ℕ × ℕ) → ℕ → Option PublicKey
home_validator_in [] account_id = none
home_validator_in ((pk, (start, count)) ∷ m) account_id =
    let rest = home_validator_in m account_id in
    if leb start account_id && ltb account_id (u64 (start + count)) then some pk else rest

unfoldable pub home_validator : Committee → ℕ → Option PublicKey
unfolding home_validator_in
home_validator c account_id = home_validator_in c.account_ranges account_id

unfoldable pub size : Committee → ℕ
size c = length c.authorities

unfoldable pub stake_in : Map PublicKey Authority → PublicKey → Stake
unfolding lookup
stake_in m name = elim (lookup name m) [ none ↦ 0 | some x ↦ x.stake ]

unfoldable pub stake : Committee → PublicKey → Stake
unfolding stake_in
stake c name = stake_in c.authorities name

-- The authorities whose name is not `myself`, each under a projection.
unfoldable pub others {κ} :
    {A : Type κ} → (Authority → A) → Map PublicKey Authority → PublicKey → List (PublicKey × A)
others f [] myself = []
others f ((name, authority) ∷ m) myself =
    let rest = others f m myself in
    if not (name == myself) then (name, f authority) ∷ rest else rest

unfoldable pub others_stake : Committee → PublicKey → List (PublicKey × Stake)
unfolding others
others_stake c myself = others (λ authority. authority.stake) c.authorities myself

-- `authorities.values().map(|x| x.stake).sum()`, without the wrap-around.
unfoldable pub sum_stakes : Map PublicKey Authority → ℕ
sum_stakes [] = 0
sum_stakes ((name, authority) ∷ m) = authority.stake + sum_stakes m

-- A sum of `u32`s wraps as the wrapped sum does.
unfoldable pub total_votes : Committee → Stake
unfolding sum_stakes
total_votes c = u32 (sum_stakes c.authorities)

unfoldable pub quorum_threshold : Committee → Stake
unfolding total_votes
quorum_threshold c = u32 (u32 (2 * total_votes c) / 3 + 1)

unfoldable pub validity_threshold : Committee → Stake
unfolding total_votes
validity_threshold c = u32 (total_votes c + 2) / 3

unfoldable pub client_reply : Committee → PublicKey → ConfigResult SocketAddr
unfolding lookup
client_reply c to = do x ← ok_or (lookup to c.authorities) (not_in_committee to); ok x.client_reply

unfoldable pub primary : Committee → PublicKey → ConfigResult PrimaryAddresses
unfolding lookup
primary c to = do x ← ok_or (lookup to c.authorities) (not_in_committee to); ok x.primary

unfoldable pub others_primaries : Committee → PublicKey → List (PublicKey × PrimaryAddresses)
unfolding others
others_primaries c myself = others (λ authority. authority.primary) c.authorities myself

-- A missing worker is reported as a missing authority.
unfoldable pub worker : Committee → PublicKey → WorkerId → ConfigResult WorkerAddresses
unfolding lookup
worker c to id = do
  authority ← ok_or (lookup to c.authorities) (not_in_committee to)
  ok_or (lookup id authority.workers) (not_in_committee to)

unfoldable pub our_workers : Committee → PublicKey → ConfigResult (List WorkerAddresses)
unfolding lookup
our_workers c myself = do
  authority ← ok_or (lookup myself c.authorities) (not_in_committee myself)
  ok (values authority.workers)

unfoldable pub executor : Committee → PublicKey → ExecutorId → ConfigResult ExecutorAddresses
unfolding lookup
executor c to id = do
  authority ← ok_or (lookup to c.authorities) (not_in_committee to)
  ok_or (lookup id authority.executors) (unknown_executor id)

unfoldable pub client_reply_address : Committee → ℕ → Option SocketAddr
unfolding lookup
client_reply_address c region_id = lookup region_id c.client_reply_addresses

unfoldable pub others_workers_in :
    Map PublicKey Authority → PublicKey → WorkerId → List (PublicKey × WorkerAddresses)
unfolding lookup
others_workers_in [] myself id = []
others_workers_in ((name, authority) ∷ m) myself id =
    let rest = others_workers_in m myself id in
    if not (name == myself)
    then elim (lookup id authority.workers) [
      | none ↦ rest
      | some addresses ↦ (name, addresses) ∷ rest
    ]
    else rest

unfoldable pub others_workers :
    Committee → PublicKey → WorkerId → List (PublicKey × WorkerAddresses)
unfolding others_workers_in
others_workers c myself id = others_workers_in c.authorities myself id
