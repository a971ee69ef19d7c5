-- ===== src/Worker/Forwarding.antt =====
-- worker/src/helper.rs, worker/src/state_helper.rs, worker/src/client_replier.rs: the tasks that pass
-- values on.
use dag_bft_sigmod.Base.{ℕ, ◌+◌, Bool, Option, none, some, List, [], ◌∷◌, ◌++◌}
use dag_bft_sigmod.Base.Maps.{Map, upsert}
use dag_bft_sigmod.Config.{
  PublicKey, SocketAddr, WorkerId, ExecutorId, Committee, ok, err, primary, worker, executor,
}
use dag_bft_sigmod.Store as Store
use dag_bft_sigmod.Primary.Errors.{Digest}
use dag_bft_sigmod.Worker.Account.{AccountState}
use dag_bft_sigmod.Worker.Transaction.{TxId}
use dag_bft_sigmod.Worker.BatchExecutor.{StateTransfer, ClientReplyRequest, tx_id_eq}

-- `Helper::run`: the batches that the store has, for the worker that asks, if the committee has it.
unfoldable pub reply_batches :
    SocketAddr → (Digest → Store.DbResult) → List Digest → List (SocketAddr × List ℕ)
reply_batches address read [] = []
reply_batches address read (digest ∷ digests) =
    let rest = reply_batches address read digests in
    elim (read digest) [
      | Store.ok (some bytes) ↦ (address, bytes) ∷ rest
      | Store.ok none ↦ rest
      | Store.err ↦ rest
    ]

unfoldable pub help :
    Committee
    → WorkerId
    → (Digest → Store.DbResult)
    → List Digest
    → PublicKey
    → List (SocketAddr × List ℕ)
unfolding worker reply_batches
help committee id read digests origin = elim (worker committee origin id) [
  | ok addresses ↦ reply_batches addresses.worker_to_worker read digests
  | err e ↦ []
]

-- `ExecutorToExecutorMessage`.
pub data ExecutorToExecutorMessage : Type 0 where
  state_transfer : StateTransfer → ExecutorToExecutorMessage
  state_writeback : TxId → ℕ → AccountState → Bool → ℕ → ExecutorToExecutorMessage

-- What the state helper sends: accounts to executors, and progress to the primary.
pub data StateHelperOutput : Type 0 where
  to_executor : SocketAddr → ExecutorToExecutorMessage → StateHelperOutput
  execution_feedback : SocketAddr → ExecutorId → ℕ → StateHelperOutput

pub record StateHelper : Type 0 where
  pub incoming_transfers : Map TxId (List StateTransfer)
  pub accounts_sent_out : ℕ
  pub accounts_received : ℕ

module _ (committee : Committee) (name : PublicKey) where
  -- `none` is a panic.
  unfoldable pub forward_feedback_to_primary : ExecutorId → ℕ → Option StateHelperOutput
  unfolding primary
  forward_feedback_to_primary executor_id last_executed = elim (primary committee name) [
    | ok addresses ↦
        some (execution_feedback addresses.executor_to_primary executor_id last_executed)
    | err e ↦ none
  ]

  unfoldable pub handle_send_state_request :
      StateHelper → StateTransfer → ExecutorId → Option (StateHelper × StateHelperOutput)
  unfolding executor
  handle_send_state_request s transfer dest_executor_id =
      elim (executor committee name dest_executor_id) [
        | ok addresses ↦ some (
          record s { accounts_sent_out = s.accounts_sent_out + 1 },
          to_executor addresses.executor_to_executor (state_transfer transfer),
        )
        | err e ↦ none
      ]

-- An account arrives; a write-back is a panic.
unfoldable pub handle_executor_message :
    StateHelper → ExecutorToExecutorMessage → Option StateHelper
unfolding upsert
handle_executor_message s (state_transfer transfer) = some (record s {
  incoming_transfers =
      upsert transfer.tx_id [] (λ waiting. waiting ++ (transfer ∷ [])) s.incoming_transfers;
  accounts_received = s.accounts_received + 1;
})
handle_executor_message s (state_writeback _ _ _ _ _) = none

pub record ClientReply : Type 0 where
  pub primary_name : PublicKey
  pub executor_id : ExecutorId
  pub batch_digest : Digest
  pub tx_type : ℕ
  pub region_id : ℕ
  pub tx_counter : ℕ
  pub success : Bool
  pub account_id : ℕ
  pub account_state : Option AccountState

-- One turn of the client replier.
unfoldable pub reply_to_client :
    PublicKey → ExecutorId → ClientReplyRequest → SocketAddr × ClientReply
reply_to_client primary_name executor_id request = (
  request.client_addr,
  record {
    primary_name = primary_name;
    executor_id = executor_id;
    batch_digest = request.batch_digest;
    tx_type = request.tx_type;
    region_id = request.tx_id.region_id;
    tx_counter = request.tx_id.tx_counter;
    success = request.success;
    account_id = request.account_id;
    account_state = request.account_state;
  },
)
