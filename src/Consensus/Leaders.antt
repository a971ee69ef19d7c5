-- ===== src/Consensus/Leaders.antt =====
-- consensus/src/lib.rs: `order_leaders`, the past leaders that the newest one leads to.
pub mod NoSkip
use dag_bft_sigmod.Base.{
  ℕ, zero, suc, ◌+◌, ◌-◌, ◌/◌, Bool, true, false, Option, none, some, List, [], ◌∷◌, ◌++◌,
  if◌then◌else◌, leb,
}
use dag_bft_sigmod.Config.{Committee}
use dag_bft_sigmod.Primary.Errors.{Round}
use dag_bft_sigmod.Primary.Messages.{Certificate, round_of}
use dag_bft_sigmod.Consensus.{State, Dag, leader}
use dag_bft_sigmod.Consensus.Linked.{linked}

-- The `n` rounds left, from `r` down in steps of two. `none` is a panic of `linked`.
unfoldable pub past_leaders :
    Committee → Dag → ℕ → Round → Certificate → List Certificate → Option (List Certificate)
unfolding linked
past_leaders c dag zero r latest to_commit = some to_commit
past_leaders c dag (suc n) r latest to_commit = elim (leader c r dag) [
  | none ↦ past_leaders c dag n (r - 2) latest to_commit
  | some (_, prev) ↦ elim (linked latest prev dag) [
    | none ↦ none
    | some true ↦ past_leaders c dag n (r - 2) prev (to_commit ++ prev ∷ [])
    | some false ↦ past_leaders c dag n (r - 2) latest to_commit
  ]
]

-- How many rounds `(bottom..=top).rev().step_by(2)` gives.
abbrev pub steps_of_two : Round → Round → ℕ
steps_of_two bottom top = if leb bottom top then (top - bottom) / 2 + 1 else 0

-- Newest first. The leader's round is at least 2 where this is called.
unfoldable pub order_leaders : Committee → Certificate → State → Option (List Certificate)
unfolding past_leaders
order_leaders c newest s =
    let top = round_of newest - 2 in
    past_leaders c s.dag (steps_of_two (s.last_committed_round + 2) top) top newest (newest ∷ [])
