-- ===== src/Worker/QuorumWaiter.antt =====
-- worker/src/quorum_waiter.rs: a batch is delivered once a quorum has acknowledged it.
use dag_bft_sigmod.Base.{
  ℕ, ◌+◌, ◌<◌, Bool, true, false, not, ◌&&◌, List, [], ◌∷◌, ◌≡◌, refl, arith, if◌then◌else◌, leb,
  u32, is_empty,
}
use dag_bft_sigmod.Config.{PublicKey, Stake, Committee, stake, quorum_threshold}

-- The loop over the acknowledgements, in the order of their arrival: whether the batch is delivered.
unfoldable pub wait_for_quorum : Committee → Stake → List PublicKey → Bool
wait_for_quorum c total_stake [] = false
wait_for_quorum c total_stake (name ∷ acks) =
    let rest = wait_for_quorum c (u32 (total_stake + stake c name)) acks in
    if leb (quorum_threshold c) (u32 (total_stake + stake c name)) then true else rest

unfoldable pub stake_of_acks : Committee → List PublicKey → ℕ
stake_of_acks c [] = 0
stake_of_acks c (name ∷ acks) = stake c name + stake_of_acks c acks

-- If the stakes fit, a batch that somebody acknowledges is delivered exactly when our stake and
-- that of the authorities that acknowledge it reach the quorum; without an acknowledgement it is
-- never delivered.
pub wait_for_quorum_iff :
    (c : Committee) (own : Stake) (acks : List PublicKey)
    → own + stake_of_acks c acks < 4294967296
    → wait_for_quorum c own acks
      ≡ (not (is_empty acks) && leb (quorum_threshold c) (own + stake_of_acks c acks))
unfolding wait_for_quorum stake_of_acks
wait_for_quorum_iff c own [] h = refl
wait_for_quorum_iff c own (name ∷ acks) h =
    ground (arith, wait_for_quorum_iff c (own + stake c name) acks)
