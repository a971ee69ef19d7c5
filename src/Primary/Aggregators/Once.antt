-- ===== src/Primary/Aggregators/Once.antt =====
-- primary/src/aggregators.rs: a quorum is announced once, whatever is appended afterwards.
use dag_bft_sigmod.Base.{
  ℕ, ◌+◌, ◌≤◌, ◌<◌, ◌≡◌, refl, ◌⊎◌, inl, inr, Option, none, some, List, [], ◌∷◌, Distinct, contains,
  arith, length, any, ◌||◌, ◌==◌, ==_iff, subst,
}
use dag_bft_sigmod.Config.{PublicKey, Committee, stake, quorum_threshold}
use dag_bft_sigmod.Config.Thresholds.{Fits, stake_of, stake_of-le_sum, quorum_majority, quorum-pos}
use dag_bft_sigmod.Primary.Errors.{Digest, DagResult, ok, err}
use dag_bft_sigmod.Primary.Messages.{Crypto, Header, Vote, Certificate, origin}
use dag_bft_sigmod.Primary.Aggregators.{
  VotesAggregator, new_votes, append_vote, CertificatesAggregator, new_certificates,
  append_certificate,
}

-- The weight counts the stake of all seen authorities, or, after a quorum, of those since.
pub record Tally (c : Committee) (weight : ℕ) (used : List PublicKey) (done : ℕ) : Type 0 where
  pub distinct : Distinct used
  pub below : weight < quorum_threshold c
  pub counted :
      ((done ≡ 0) × (weight ≡ stake_of c.authorities used))
      ⊎ ((done ≡ 1) × (weight + quorum_threshold c ≤ stake_of c.authorities used))

-- How many certificates the results hold.
abbrev pub announced : {A : Type 0} → DagResult (Option A) → ℕ
announced (ok (some a)) = 1
announced (ok none) = 0
announced (err e) = 0

pub append_vote-Tally :
    (c : Committee) (a : VotesAggregator) (v : Vote) (h : Header) (done : ℕ)
    → Fits c
    → Tally c a.weight a.used done
    → Tally c
        (append_vote a v c h).0.weight
        (append_vote a v c h).0.used
        (done + announced (append_vote a v c h).1)
unfolding append_vote stake_of stake
append_vote-Tally c a v h done f t =
    ground (
      arith,
      stake_of-le_sum c.authorities (v.author ∷ a.used),
      quorum_majority c f,
      quorum-pos c f,
    )

-- The votes in the order in which they arrive, and the certificates that they yield.
unfoldable pub append_votes :
    VotesAggregator → List Vote → Committee → Header → VotesAggregator × List Certificate
append_votes a [] c h = (a, [])
append_votes a (v ∷ vs) c h =
    let (a', result) = append_vote a v c h in
    let (last, later) = append_votes a' vs c h in
    (last, elim result [ ok (some x) ↦ x ∷ later | ok none ↦ later | err e ↦ later ])

append_votes-Tally :
    (c : Committee) (a : VotesAggregator) (vs : List Vote) (h : Header) (done : ℕ)
    → Fits c
    → Tally c a.weight a.used done
    → Tally c
        (append_votes a vs c h).0.weight
        (append_votes a vs c h).0.used
        (done + length (append_votes a vs c h).1)
unfolding append_votes
append_votes-Tally c a [] h done f t = subst (Tally c a.weight a.used) (omega arith) t
append_votes-Tally c a (v ∷ vs) h done f t =
    subst (Tally c (append_votes a (v ∷ vs) c h).0.weight (append_votes a (v ∷ vs) c h).0.used)
      (ground arith)
      (append_votes-Tally c (append_vote a v c h).0 vs h _ f (append_vote-Tally c a v h done f t))

pub new_votes-Tally : (c : Committee) → Fits c → Tally c new_votes.weight new_votes.used 0
unfolding new_votes stake_of
new_votes-Tally c f = record { distinct = tt; below = quorum-pos c f; counted = inl (refl, refl) }

Tally-outcome :
    (c : Committee) (weight n : ℕ) (used : List PublicKey)
    → Tally c weight used (0 + n)
    → ((n ≡ 1) × (quorum_threshold c ≤ stake_of c.authorities used))
      ⊎ ((n ≡ 0) × (stake_of c.authorities used < quorum_threshold c))
Tally-outcome c weight n used t = elim t.counted [
  | inl (e, w) ↦ inr (omega arith, omega (arith, t.below))
  | inr (e, w) ↦ inl (omega arith, omega arith)
]

-- The authors that an aggregator has seen are those of the votes.
seen-append_votes :
    (c : Committee) (a : VotesAggregator) (vs : List Vote) (h : Header) (n : PublicKey)
    → contains (append_votes a vs c h).0.used n ≡ (contains a.used n || any (λ v. v.author == n) vs)
unfolding append_votes append_vote contains any
seen-append_votes c a [] h n = ground arith
seen-append_votes c a (v ∷ vs) h n =
    ground (arith, seen-append_votes c (append_vote a v c h).0 vs h n, ==_iff v.author n)

-- Whatever votes arrive, they yield one certificate if the distinct voters hold a quorum, and none
-- if not: the reset of the weight never lets the votes that follow reach a quorum again.
pub votes_certify_once :
    (c : Committee) (vs : List Vote) (h : Header)
    → Fits c
    → (voters : List PublicKey) × Distinct voters
      × ((n : PublicKey) → contains voters n ≡ any (λ v. v.author == n) vs)
      × (((length (append_votes new_votes vs c h).1 ≡ 1)
            × (quorum_threshold c ≤ stake_of c.authorities voters))
          ⊎ ((length (append_votes new_votes vs c h).1 ≡ 0)
              × (stake_of c.authorities voters < quorum_threshold c)))
unfolding new_votes contains
votes_certify_once c vs h f = (
  (append_votes new_votes vs c h).0.used,
  t.distinct,
  seen-append_votes c new_votes vs h,
  Tally-outcome c (append_votes new_votes vs c h).0.weight _ _ t,
)
  where
    t :
        Tally c
          (append_votes new_votes vs c h).0.weight
          (append_votes new_votes vs c h).0.used
          (0 + length (append_votes new_votes vs c h).1)
    t = append_votes-Tally c new_votes vs h 0 f (new_votes-Tally c f)

append_certificate-Tally :
    (crypto : Crypto) (c : Committee) (a : CertificatesAggregator) (x : Certificate) (done : ℕ)
    → Fits c
    → Tally c a.weight a.used done
    → Tally c
        (append_certificate crypto a x c).0.weight
        (append_certificate crypto a x c).0.used
        (done + announced (append_certificate crypto a x c).1)
unfolding append_certificate stake_of stake
append_certificate-Tally crypto c a x done f t =
    ground (
      arith,
      stake_of-le_sum c.authorities (origin x ∷ a.used),
      quorum_majority c f,
      quorum-pos c f,
    )

-- The certificates of one round in the order in which they arrive, and the parents announced.
unfoldable pub append_certificates :
    Crypto
    → CertificatesAggregator
    → List Certificate
    → Committee
    → CertificatesAggregator × List (List Digest)
append_certificates crypto a [] c = (a, [])
append_certificates crypto a (x ∷ xs) c =
    let (a', result) = append_certificate crypto a x c in
    let (last, later) = append_certificates crypto a' xs c in
    (last, elim result [ ok (some ds) ↦ ds ∷ later | ok none ↦ later | err e ↦ later ])

append_certificates-Tally :
    (crypto : Crypto) (c : Committee) (a : CertificatesAggregator) (xs : List Certificate)
    (done : ℕ)
    → Fits c
    → Tally c a.weight a.used done
    → Tally c
        (append_certificates crypto a xs c).0.weight
        (append_certificates crypto a xs c).0.used
        (done + length (append_certificates crypto a xs c).1)
unfolding append_certificates
append_certificates-Tally crypto c a [] done f t = subst (Tally c a.weight a.used) (omega arith) t
append_certificates-Tally crypto c a (x ∷ xs) done f t =
    subst
      (Tally c (append_certificates crypto a (x ∷ xs) c).0.weight
        (append_certificates crypto a (x ∷ xs) c).0.used)
      (ground arith)
      (append_certificates-Tally crypto c (append_certificate crypto a x c).0 xs _ f
        (append_certificate-Tally crypto c a x done f t))

new_certificates-Tally :
    (c : Committee) → Fits c → Tally c new_certificates.weight new_certificates.used 0
unfolding new_certificates stake_of
new_certificates-Tally c f = record {
  distinct = tt;
  below = quorum-pos c f;
  counted = inl (refl, refl);
}

seen-append_certificates :
    (crypto : Crypto) (c : Committee) (a : CertificatesAggregator) (xs : List Certificate)
    (n : PublicKey)
    → contains (append_certificates crypto a xs c).0.used n
      ≡ (contains a.used n || any (λ x. origin x == n) xs)
unfolding append_certificates append_certificate contains any
seen-append_certificates crypto c a [] n = ground arith
seen-append_certificates crypto c a (x ∷ xs) n = ground (
  arith,
  seen-append_certificates crypto c (append_certificate crypto a x c).0 xs n,
  ==_iff (origin x) n,
)

-- A round's certificates give the proposer one list of parents if their distinct origins hold a
-- quorum, and none if not, whatever arrives twice or late.
pub parents_announced_once :
    (crypto : Crypto) (c : Committee) (xs : List Certificate)
    → Fits c
    → (origins : List PublicKey) × Distinct origins
      × ((n : PublicKey) → contains origins n ≡ any (λ x. origin x == n) xs)
      × (((length (append_certificates crypto new_certificates xs c).1 ≡ 1)
            × (quorum_threshold c ≤ stake_of c.authorities origins))
          ⊎ ((length (append_certificates crypto new_certificates xs c).1 ≡ 0)
              × (stake_of c.authorities origins < quorum_threshold c)))
unfolding new_certificates contains
parents_announced_once crypto c xs f = (
  (append_certificates crypto new_certificates xs c).0.used,
  t.distinct,
  seen-append_certificates crypto c new_certificates xs,
  Tally-outcome c (append_certificates crypto new_certificates xs c).0.weight _ _ t,
)
  where
    t :
        Tally c
          (append_certificates crypto new_certificates xs c).0.weight
          (append_certificates crypto new_certificates xs c).0.used
          (0 + length (append_certificates crypto new_certificates xs c).1)
    t = append_certificates-Tally crypto c new_certificates xs 0 f (new_certificates-Tally c f)
