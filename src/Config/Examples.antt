-- ===== src/Config/Examples.antt =====
-- Concrete committees, and the theorems of `Config` at them.
use dag_bft_sigmod.Base.{◌≡◌, refl, [], ◌∷◌, true, contains, arith, nat_eq}
use dag_bft_sigmod.Base.Maps.{lookup}
use dag_bft_sigmod.Config.{
  PublicKey, Authority, PrimaryAddresses, Committee, quorum_threshold, validity_threshold,
  sum_stakes, stake_in,
}
use dag_bft_sigmod.Config.Thresholds.{Fits, stake_of, quorum-meets_validity}

abbrev pub no_addresses : PrimaryAddresses
no_addresses = record { primary_to_primary = 0; worker_to_primary = 0; executor_to_primary = 0 }

-- An authority with one unit of stake.
abbrev pub one_vote : Authority
one_vote = record {
  stake = 1;
  primary = no_addresses;
  workers = [];
  executors = [];
  client_reply = 0;
  capacity_by_bw = 100;
}

-- Four authorities with equal stakes: f = 1.
abbrev pub four : Committee
four = record {
  authorities = (1, one_vote) ∷ (2, one_vote) ∷ (3, one_vote) ∷ (4, one_vote) ∷ [];
  latency_matrix = [];
  account_ranges = (1, (0, 10)) ∷ (2, (10, 10)) ∷ [];
  client_reply_addresses = [];
}

pub four-Fits : Fits four
unfolding sum_stakes
four-Fits = omega arith

quorum-meets_validity_example :
    (n : PublicKey) × (contains (1 ∷ 2 ∷ 3 ∷ []) n ≡ true) × (contains (4 ∷ 3 ∷ []) n ≡ true)
unfolding quorum_threshold validity_threshold sum_stakes stake_of stake_in lookup contains
quorum-meets_validity_example =
    quorum-meets_validity four (1 ∷ 2 ∷ 3 ∷ []) (4 ∷ 3 ∷ []) four-Fits (refl, (refl, (refl, tt)))
      (refl, (refl, tt)) (omega arith) (omega arith)
