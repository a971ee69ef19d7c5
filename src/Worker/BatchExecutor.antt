-- ===== src/Worker/BatchExecutor.antt =====
-- worker/src/batch_executor.rs: the state of an executor, and what it is made of.
pub mod Locality
pub mod Scheduler
pub mod Queues
pub mod Execute
pub mod Transfers
pub mod Batches
pub mod Sequence
pub mod Conserved
pub mod Examples
use dag_bft_sigmod.Base.{
  ℕ, ◌+◌, Bool, true, false, ◌&&◌, List, [], ◌∷◌, Option, none, some, ◌≡◌, ◌↔◌, refl, arith, ◌==◌,
  ==_iff, nat_eq,
}
use dag_bft_sigmod.Base.Classes.{Eq}
use dag_bft_sigmod.Base.Maps.{Map}
use dag_bft_sigmod.Config.{PublicKey, SocketAddr, Committee}
use dag_bft_sigmod.Primary.Errors.{Digest}
use dag_bft_sigmod.Worker.Account.{Float, AccountState, AccountStore}
use dag_bft_sigmod.Worker.Workload.{SmallBankTransaction}
use dag_bft_sigmod.Worker.Transaction.{TxId, TransactionHeader}

abbrev pub tx_id_beq : TxId → TxId → Bool
tx_id_beq a b = a.region_id == b.region_id && a.tx_counter == b.tx_counter

pub tx_id_beq_iff : (a b : TxId) → (tx_id_beq a b ≡ true) ↔ (a ≡ b)
tx_id_beq_iff a b = ground (arith, ==_iff a.region_id b.region_id, ==_iff a.tx_counter b.tx_counter)

instance abbrev pub tx_id_eq : Eq TxId
tx_id_eq = record { beq = tx_id_beq; beq_iff = tx_id_beq_iff }

-- The executor of each account.
abbrev pub Partition : Type 0
Partition = Map ℕ ℕ

pub record BufferedBatch : Type 0 where
  pub digest : Digest
  pub transactions : List (List ℕ)

pub data TransactionLocality : Type 0 where
  local : TransactionLocality
  migrate_out : List ℕ → List ℕ → ℕ → TransactionLocality
  migrate_in : List (ℕ × ℕ) → TransactionLocality
  others : ℕ → TransactionLocality

pub record PendingTransaction : Type 0 where
  pub tx_bytes : List ℕ
  pub tx_header : TransactionHeader
  pub sb_tx : SmallBankTransaction
  pub batch_digest : Digest
  pub required_accounts : List ℕ
  pub locality : TransactionLocality

pub record LockStatistics : Type 0 where
  pub total_transactions : ℕ
  pub lock_hits : ℕ
  pub eager_executions : ℕ
  pub current_queue_depth : ℕ
  pub max_single_queue_depth : ℕ × ℕ
  pub max_total_queue_depth : ℕ

pub record StateTransfer : Type 0 where
  pub tx_id : TxId
  pub src_account_id : ℕ
  pub src_account_state : AccountState

pub record ClientReplyRequest : Type 0 where
  pub batch_digest : Digest
  pub client_addr : SocketAddr
  pub tx_type : ℕ
  pub tx_id : TxId
  pub success : Bool
  pub account_id : ℕ
  pub account_state : Option AccountState

-- What an executor sends: replies for clients, accounts for other executors, and its progress.
pub data ExecutorOutput : Type 0 where
  client_reply : ClientReplyRequest → ExecutorOutput
  send_state : StateTransfer → ℕ → ExecutorOutput
  feedback : ℕ → ℕ → ExecutorOutput

-- What does not change: `max_allowed` is the largest load of an executor in a batch of so many
-- transactions, which the code computes in floating point.
pub record ExecutorSetup : Type 0 where
  pub executor_id : ℕ
  pub num_executors : ℕ
  pub use_new_scheduler : Bool
  pub committee : Committee
  pub float : Float
  pub max_allowed : ℕ → ℕ

-- The fields of `BatchExecutor` that the execution of transactions changes, and what it has `sent`.
-- `incoming_transfers` is shared with the state helper.
pub record Execution : Type 0 where
  pub account_store : AccountStore
  pub states_schedule_partition : Partition
  pub pending_queues : Map ℕ (List PendingTransaction)
  pub incoming_transfers : Map TxId (List StateTransfer)
  pub scheduled_tx_count : ℕ
  pub executed_tx_count : ℕ
  pub lock_stats : LockStatistics
  pub drained_incoming_transfers : Map TxId (List StateTransfer)
  pub sent : List ExecutorOutput

-- The fields that order the batches.
pub record BatchExecutor : Type 0 where
  pub execution : Execution
  pub next_sequence : ℕ
  pub buffer : Map ℕ BufferedBatch
  pub last_feedback_sent : ℕ

-- An operation that may panic: `none` is the panic.
infixl 5 ◌>>=◌
abbrev pub ◌>>=◌ {ℓ κ} : {A : Type ℓ} {B : Type κ} → Option A → (A → Option B) → Option B
none >>= f = none
some a >>= f = f a
