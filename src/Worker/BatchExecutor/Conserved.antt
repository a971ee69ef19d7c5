-- ===== src/Worker/BatchExecutor/Conserved.antt =====
-- worker/src/batch_executor.rs: how often an executor has an account, and has sent it away.
pub mod Accounts
pub mod Execute
pub mod Transfers
pub mod Batches
pub mod Sequence
use dag_bft_sigmod.Base.{
  ℕ, zero, suc, ◌+◌, ◌-◌, ◌≤◌, Bool, true, false, Option, none, some, List, [], ◌∷◌, ◌++◌, ◌≡◌, inl,
  inr, refl, sym, ap, subst, arith, if◌then◌else◌, ◌==◌, ==_iff, nat_eq, Bool-cases, Option-cases,
}
use dag_bft_sigmod.Base.Classes.{Eq}
use dag_bft_sigmod.Base.Maps.{Map, lookup, insert, remove, get_or}
use dag_bft_sigmod.Worker.Transaction.{TxId}
use dag_bft_sigmod.Worker.BatchExecutor.{
  Execution, StateTransfer, ExecutorOutput, client_reply, send_state, feedback, tx_id_eq, tx_id_beq,
  tx_id_beq_iff,
}

unfoldable pub count_key : {V : Type 0} → ℕ → Map ℕ V → ℕ
count_key k [] = 0
count_key k ((j, v) ∷ m) = let rest = count_key k m in if j == k then suc rest else rest

unfoldable pub count_transfers : ℕ → List StateTransfer → ℕ
count_transfers k [] = 0
count_transfers k (t ∷ transfers) =
    let rest = count_transfers k transfers in if t.src_account_id == k then suc rest else rest

unfoldable pub count_waiting : ℕ → Map TxId (List StateTransfer) → ℕ
unfolding count_transfers
count_waiting k [] = 0
count_waiting k ((tx_id, transfers) ∷ m) = count_transfers k transfers + count_waiting k m

unfoldable pub count_sent : ℕ → List ExecutorOutput → ℕ
count_sent k [] = 0
count_sent k (client_reply r ∷ sent) = count_sent k sent
count_sent k (feedback e last ∷ sent) = count_sent k sent
count_sent k (send_state t dest ∷ sent) =
    let rest = count_sent k sent in if t.src_account_id == k then suc rest else rest

-- The account is in the store, or it has arrived and waits.
unfoldable pub held : ℕ → Execution → ℕ
unfolding count_key count_waiting
held k st =
    count_key k st.account_store
    + (count_waiting k st.incoming_transfers + count_waiting k st.drained_incoming_transfers)

abbrev pub Unique : Map TxId (List StateTransfer) → Type 0
Unique [] = Unit
Unique ((tx_id, transfers) ∷ m) = (lookup tx_id m ≡ none) × Unique m

-- The account is there at most once.
abbrev pub IsSingle : ℕ → Execution → Type 0
IsSingle k st = (held k st ≤ 1) × Unique st.drained_incoming_transfers

-- The account is neither lost nor doubled from one state to the other.
abbrev pub Keeps : ℕ → Execution → Execution → Type 0
Keeps k st st' =
    IsSingle k st
    → Unique st'.drained_incoming_transfers
      × (held k st' + count_sent k st'.sent ≡ held k st + count_sent k st.sent)
      × (count_sent k st.sent ≤ count_sent k st'.sent)

pub Keeps-refl : (k : ℕ) (st : Execution) → Keeps k st st
Keeps-refl k st h = (h.1, refl, omega arith)

pub Keeps-trans : (k : ℕ) (a b c : Execution) → Keeps k a b → Keeps k b c → Keeps k a c
Keeps-trans k a b c f g h =
    let (u, e, m) = f h in let (u', e', m') = g (omega arith, u) in (u', omega arith, omega arith)

-- Nothing changes that matters to the account.
pub Keeps-same :
    (k : ℕ) (a b : Execution)
    → count_key k b.account_store ≡ count_key k a.account_store
    → b.incoming_transfers ≡ a.incoming_transfers
    → b.drained_incoming_transfers ≡ a.drained_incoming_transfers
    → count_sent k b.sent ≡ count_sent k a.sent
    → Keeps k a b
unfolding held
Keeps-same k a b store incoming drained sent h = (
  subst Unique (sym drained) h.1,
  omega (arith, store, sent, ap (count_waiting k) incoming, ap (count_waiting k) drained),
  omega (arith, sent),
)
