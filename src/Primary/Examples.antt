-- ===== src/Primary/Examples.antt =====
-- Votes and certificates of a committee of four, and the theorems of `Primary` at them.
use dag_bft_sigmod.Base.{
  ℕ, ◌+◌, ◌*◌, ◌%◌, ◌≤◌, ◌<◌, ◌≡◌, ◌⊎◌, List, [], ◌∷◌, true, contains, any, arith, All, Distinct,
  length, ◌==◌, nat_eq,
}
use dag_bft_sigmod.Base.Maps.{lookup}
use dag_bft_sigmod.Config.{PublicKey, quorum_threshold, stake, stake_in}
use dag_bft_sigmod.Config.Thresholds.{stake_of}
use dag_bft_sigmod.Config.Examples.{four, four-Fits}
use dag_bft_sigmod.Primary.Messages.{Crypto, Vote, Certificate, default_header}
use dag_bft_sigmod.Primary.GarbageCollector.{
  new_garbage_collector, collect, largest_round, last_round, AscendFrom, collect-largest_round,
}
use dag_bft_sigmod.Primary.Aggregators.{new_votes}
use dag_bft_sigmod.Primary.Aggregators.Once.{append_votes, votes_certify_once}
use dag_bft_sigmod.Primary.Aggregators.Quorum.{IsCertified, IsCertified-votes_form_quorum}

-- A stand-in for the cryptographic library: a rolling hash, and signatures that equal the digest.
abbrev rolling : List ℕ → ℕ
rolling [] = 7
rolling (b ∷ bs) = (rolling bs * 257 + b) % 1000003

abbrev pub toy_crypto : Crypto
toy_crypto = record {
  sha512 = rolling;
  verify = λ signature digest key. signature == digest;
  verify_batch = λ digest votes. true;
}

abbrev pub vote_by : PublicKey → Vote
vote_by a = record { id = 0; round = 0; origin = 1; author = a; signature = 100 + a }

-- Author 2 votes twice, and author 4 after the quorum.
abbrev pub ballots : List Vote
ballots = vote_by 1 ∷ vote_by 2 ∷ vote_by 2 ∷ vote_by 3 ∷ vote_by 4 ∷ []

votes_certify_once_example :
    (voters : List PublicKey) × Distinct voters
    × ((n : PublicKey) → contains voters n ≡ any (λ v. v.author == n) ballots)
    × (((length (append_votes new_votes ballots four default_header).1 ≡ 1)
          × (quorum_threshold four ≤ stake_of four.authorities voters))
        ⊎ ((length (append_votes new_votes ballots four default_header).1 ≡ 0)
            × (stake_of four.authorities voters < quorum_threshold four)))
votes_certify_once_example = votes_certify_once four ballots default_header four-Fits

IsCertified-votes_form_quorum_example :
    All (IsCertified four default_header) (append_votes new_votes ballots four default_header).1
unfolding stake stake_in lookup
IsCertified-votes_form_quorum_example =
    IsCertified-votes_form_quorum four ballots default_header four-Fits (omega arith)

abbrev certificate_by : PublicKey → Certificate
certificate_by a = record {
  header = record {
    author = a;
    round = 1;
    payload = [];
    parents = [];
    account_counts = [];
    avg_queue_delay_ms = 0;
    created_at = 0;
    id = 10 + a;
    signature = 0;
  };
  votes = [];
}

abbrev arrivals : List Certificate
arrivals =
    certificate_by 1
    ∷ certificate_by 1
    ∷ certificate_by 2
    ∷ certificate_by 3
    ∷ certificate_by 4
    ∷ []

abbrev feedback : List Certificate
feedback = certificate_by 2 ∷ certificate_by 3 ∷ []

collect-largest_round_example :
    ((collect new_garbage_collector feedback).0.consensus_round ≡ largest_round 0 feedback)
    × AscendFrom 0 (collect new_garbage_collector feedback).1
    × ((collect new_garbage_collector feedback).0.consensus_round
        ≡ last_round 0 (collect new_garbage_collector feedback).1)
collect-largest_round_example = collect-largest_round feedback
