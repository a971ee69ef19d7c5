-- ===== src/Consensus/Commit/Examples.antt =====
-- A certificate that commits the leader of round 2, and the theorems at it.
use dag_bft_sigmod.Base.{
  ◌⊎◌, All, Distinct, contains, Bool-cases, ◌==◌, inl, inr, subst, arith, ◌-◌, ◌%◌, ◌≤◌, ◌<◌, ◌≡◌,
  refl, some, List, [], ◌∷◌, nat_eq, pred_u64,
}
use dag_bft_sigmod.Base.Maps.{get_or, values, lookup}
use dag_bft_sigmod.Config.{validity_threshold, stake, size}
use dag_bft_sigmod.Config.Examples.{four, four-Fits}
use dag_bft_sigmod.Primary.Examples.{toy_crypto}
use dag_bft_sigmod.Primary.Messages.{Certificate}
use dag_bft_sigmod.Consensus.{Dag, State, leader, update, max_round}
use dag_bft_sigmod.Consensus.Examples.{state, certificate_of}
use dag_bft_sigmod.Consensus.Linked.Support.{origins}
use dag_bft_sigmod.Consensus.Leaders.{order_leaders}
use dag_bft_sigmod.Consensus.SubDag.{order_dag}
use dag_bft_sigmod.Consensus.Commit.{support, process_certificate}
use dag_bft_sigmod.Consensus.Commit.Reason.{
  OnlyAdds, HasSupport, OnePerAuthor, process_certificate-HasSupport,
}
use dag_bft_sigmod.Consensus.Commit.Progress.{Advances, process_certificate-Advances}

abbrev arriving : Certificate
arriving = certificate_of 5 1

abbrev committed : State × List Certificate
committed = get_or (state, []) (process_certificate toy_crypto four 50 state arriving)

leader_committed :
    process_certificate toy_crypto four 50 state arriving
    ≡ some (committed.0, certificate_of 2 3 ∷ [])
unfolding process_certificate leader stake validity_threshold order_leaders order_dag update support
    size
leader_committed = refl

rows-OnePerAuthor :
    (rows : Dag) → All (λ entry. Distinct (origins (values entry.1))) rows → OnePerAuthor rows
unfolding lookup
rows-OnePerAuthor [] h q row l = absurd (cc)
rows-OnePerAuthor ((p, first) ∷ rows) h q row l = elim (Bool-cases (p == q)) [
  | inl here ↦
      let same : first ≡ row = ground arith in subst (λ r. Distinct (origins (values r))) same h.0
  | inr later ↦ rows-OnePerAuthor rows h.1 q row (ground arith)
]

four_names-Distinct : Distinct (1 ∷ 2 ∷ 3 ∷ 4 ∷ [])
unfolding contains
four_names-Distinct = (refl, (refl, (refl, (refl, tt))))

state-OnePerAuthor : OnePerAuthor state.dag
state-OnePerAuthor =
    rows-OnePerAuthor state.dag
      (four_names-Distinct, (four_names-Distinct, (four_names-Distinct, tt)))

process_certificate-HasSupport_example :
    OnlyAdds toy_crypto state committed.0 arriving (certificate_of 2 3 ∷ [])
    ⊎ ((pred_u64 5 % 2 ≡ 0) × (4 ≤ pred_u64 5) × (0 < pred_u64 5 - 2) × HasSupport four state.dag 4)
process_certificate-HasSupport_example =
    process_certificate-HasSupport toy_crypto four 50 state committed.0 arriving
      (certificate_of 2 3 ∷ []) four-Fits four_names-Distinct state-OnePerAuthor leader_committed

process_certificate-Advances_example : Advances state committed.0 (certificate_of 2 3 ∷ [])
unfolding max_round
process_certificate-Advances_example =
    process_certificate-Advances toy_crypto four 50 state committed.0 arriving
      (certificate_of 2 3 ∷ []) refl leader_committed
