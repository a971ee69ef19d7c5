-- ===== src/Consensus/Linked.antt =====
-- consensus/src/lib.rs: `linked`, the search for a path between two leaders.
pub mod Paths
pub mod Support
use dag_bft_sigmod.Base.{
  ℕ, zero, suc, ◌+◌, ◌-◌, Bool, Option, none, some, List, [], ◌∷◌, if◌then◌else◌, any, contains,
  nat_eq,
}
use dag_bft_sigmod.Base.Maps.{lookup, values}
use dag_bft_sigmod.Primary.Errors.{Digest, Round}
use dag_bft_sigmod.Primary.Messages.{Certificate, round_of, same_certificate}
use dag_bft_sigmod.Consensus.{Dag}

-- The certificates of a row that some certificate of the list has as a parent.
unfoldable pub parents_in : List (Digest × Certificate) → List Certificate → List Certificate
parents_in [] children = []
parents_in ((digest, x) ∷ row) children =
    let rest = parents_in row children in
    if any (λ child. contains child.header.parents digest) children then x ∷ rest else rest

-- The loop over the rounds from `base + n - 1` down to `base`; `none` is the panic of a missing row.
unfoldable pub walk : Dag → ℕ → Round → List Certificate → Option (List Certificate)
unfolding lookup parents_in
walk dag zero base parents = some parents
walk dag (suc n) base parents = elim (lookup (base + n) dag) [
  | none ↦ none
  | some row ↦ walk dag n base (parents_in (values row) parents)
]

unfoldable pub linked : Certificate → Certificate → Dag → Option Bool
unfolding walk
linked leader prev_leader dag =
    elim (walk dag (round_of leader - round_of prev_leader) (round_of prev_leader) (leader ∷ [])) [
      | none ↦ none
      | some parents ↦ some (any (λ x. same_certificate x prev_leader) parents)
    ]
