-- ===== src/Primary/Aggregators/Quorum.antt =====
-- primary/src/aggregators.rs against `Certificate::verify` of primary/src/messages.rs: the
-- certificate that the votes of distinct authorities form passes the check that receivers make.
use dag_bft_sigmod.Base.{
  ℕ, ◌+◌, ◌≤◌, ◌<◌, ◌≡◌, refl, ◌⊎◌, inl, inr, Option, none, some, List, [], ◌∷◌, ◌++◌, Distinct,
  contains, arith, false, All, u32, ◌==◌, ==_iff, ◌∙◌, le→leb, lt→ltb, ◌||◌, ap, leb→le, subst,
}
use dag_bft_sigmod.Base.Maps.{keys}
use dag_bft_sigmod.Config.{PublicKey, Committee, stake, quorum_threshold}
use dag_bft_sigmod.Config.Thresholds.{Fits, stake_of, stake_of-le_sum}
use dag_bft_sigmod.Primary.Errors.{DagResult, ok, err, authority_reuse}
use dag_bft_sigmod.Primary.Messages.{Signature, Header, Vote, Certificate}
use dag_bft_sigmod.Primary.Verify.{check_votes, check_quorum}
use dag_bft_sigmod.Primary.Aggregators.{VotesAggregator, new_votes, append_vote}
use dag_bft_sigmod.Primary.Aggregators.Once.{
  Tally, append_votes, append_vote-Tally, new_votes-Tally,
}

check_votes-append :
    (c : Committee) (votes : List (PublicKey × Signature)) (used : List PublicKey) (w w' : ℕ)
    (n : PublicKey) (s : Signature)
    → check_votes c votes used w ≡ ok w'
    → contains used n ≡ false
    → contains (keys votes) n ≡ false
    → 0 < stake c n
    → check_votes c (votes ++ (n, s) ∷ []) used w ≡ ok (u32 (w' + stake c n))
unfolding check_votes contains
check_votes-append c [] used w w' n s e hu hv p = ground (arith, lt→ltb 0 (stake c n))
check_votes-append c ((m, t) ∷ votes) used w w' n s e hu hv p =
    ground (arith, ==_iff m n, check_votes-append c votes (m ∷ used) (u32 (w + stake c m)) w' n s)

contains-keys_append :
    (votes : List (PublicKey × Signature)) (m n : PublicKey) (s : Signature)
    → contains (keys (votes ++ (n, s) ∷ [])) m ≡ (contains (keys votes) m || n == m)
unfolding contains
contains-keys_append [] m n s = ground arith
contains-keys_append ((k, t) ∷ votes) m n s = ground (arith, contains-keys_append votes m n s)

-- The collected votes pass the check of a certificate's votes, with the stake of the voters.
record Collected (c : Committee) (votes : List (PublicKey × Signature)) (used : List PublicKey)
    : Type 0 where
  checked : check_votes c votes [] 0 ≡ ok (stake_of c.authorities used)
  names : (n : PublicKey) → contains (keys votes) n ≡ contains used n

Collected-append :
    (c : Committee) (votes : List (PublicKey × Signature)) (used : List PublicKey) (n : PublicKey)
    (s : Signature)
    → Fits c
    → 0 < stake c n
    → Distinct used
    → contains used n ≡ false
    → Collected c votes used
    → Collected c (votes ++ (n, s) ∷ []) (n ∷ used)
unfolding stake_of stake contains
Collected-append c votes used n s f p d new k = record {
  checked =
      check_votes-append c votes [] 0 _ n s k.checked refl (k.names n ∙ new) p
      ∙ ap ok (omega (arith, stake_of-le_sum c.authorities (n ∷ used) (new, d)));
  names = λ m. ground (arith, contains-keys_append votes m n s, k.names m, ==_iff n m);
}

-- The two outcomes of an append: the vote is refused, or it is recorded.
append_vote_cases :
    (c : Committee) (a : VotesAggregator) (v : Vote) (h : Header)
    → (append_vote a v c h ≡ (a, err (authority_reuse v.author)))
      ⊎ ((contains a.used v.author ≡ false)
          × ((append_vote a v c h).0.votes ≡ a.votes ++ (v.author, v.signature) ∷ [])
          × ((append_vote a v c h).0.used ≡ v.author ∷ a.used)
          × (((append_vote a v c h).1 ≡ ok none)
              ⊎ (((append_vote a v c h).1
                    ≡ ok (
                        some
                          (record { header = h; votes = a.votes ++ (v.author, v.signature) ∷ [] })))
                  × (quorum_threshold c ≤ u32 (a.weight + stake c v.author)))))
unfolding append_vote
append_vote_cases c a v h =
    ground (arith, leb→le (quorum_threshold c) (u32 (a.weight + stake c v.author)))

-- A certificate for the header whose votes form a quorum.
abbrev pub IsCertified : Committee → Header → Certificate → Type 0
IsCertified c h x = (x.header ≡ h) × (check_quorum c x.votes ≡ ok tt)

Collected-quorum :
    (c : Committee) (votes : List (PublicKey × Signature)) (used : List PublicKey)
    → Collected c votes used
    → quorum_threshold c ≤ stake_of c.authorities used
    → check_quorum c votes ≡ ok tt
unfolding check_quorum
Collected-quorum c votes used k q = rw k.checked (rw (le→leb _ _ q))

append_vote-Collected :
    (c : Committee) (a : VotesAggregator) (v : Vote) (h : Header)
    → Fits c
    → 0 < stake c v.author
    → Distinct a.used
    → Collected c a.votes a.used
    → Collected c (append_vote a v c h).0.votes (append_vote a v c h).0.used
append_vote-Collected c a v h f p d k = elim (append_vote_cases c a v h) [
  | inl same ↦ rw same k
  | inr (new, ev, eu, _) ↦
      rw (ev, eu) (Collected-append c a.votes a.used v.author v.signature f p d new k)
]

append_vote-IsCertified :
    (c : Committee) (a : VotesAggregator) (v : Vote) (h : Header) (done : ℕ) (x : Certificate)
    → Fits c
    → 0 < stake c v.author
    → Tally c a.weight a.used done
    → Collected c a.votes a.used
    → (append_vote a v c h).1 ≡ ok (some x)
    → IsCertified c h x
unfolding stake_of stake
append_vote-IsCertified c a v h done x f p t k e = elim (append_vote_cases c a v h) [
  | inl same ↦ absurd (cc (ap (λ r. r.1) same))
  | inr (new, _, _, inl silent) ↦ absurd (cc)
  | inr (new, _, _, inr (ex, q)) ↦
      let y : Certificate = record {
        header = h;
        votes = a.votes ++ (v.author, v.signature) ∷ [];
      } in
      let same : y ≡ x = cc in
      subst (IsCertified c h) same (
        refl,
        Collected-quorum c _ (v.author ∷ a.used)
            (Collected-append c a.votes a.used v.author v.signature f p t.distinct new k)
            (omega (arith, stake_of-le_sum c.authorities (v.author ∷ a.used) (new, t.distinct))),
      )
]

append_votes-IsCertified :
    (c : Committee) (a : VotesAggregator) (vs : List Vote) (h : Header) (done : ℕ)
    → Fits c
    → All (λ v. 0 < stake c v.author) vs
    → Tally c a.weight a.used done
    → Collected c a.votes a.used
    → All (IsCertified c h) (append_votes a vs c h).1
unfolding append_votes
append_votes-IsCertified c a [] h done f p t k = tt
append_votes-IsCertified c a (v ∷ vs) h done f p t k = add (append_vote a v c h).1 refl (
    append_votes-IsCertified c (append_vote a v c h).0 vs h _ f p.1
      (append_vote-Tally c a v h done f t) (append_vote-Collected c a v h f p.0 t.distinct k))
  where
    add :
        (r : DagResult (Option Certificate))
        → (append_vote a v c h).1 ≡ r
        → All (IsCertified c h) (append_votes (append_vote a v c h).0 vs c h).1
        → All (IsCertified c h) (elim r [
          | ok (some x) ↦ x ∷ (append_votes (append_vote a v c h).0 vs c h).1
          | ok none ↦ (append_votes (append_vote a v c h).0 vs c h).1
          | err e ↦ (append_votes (append_vote a v c h).0 vs c h).1
        ])
    add (ok (some x)) e rest = (append_vote-IsCertified c a v h done x f p.0 t k e, rest)
    add (ok none) e rest = rest
    add (err _) e rest = rest

-- Every certificate that the votes of authorities with stake yield is for the header that was
-- voted on, and its votes pass the quorum check of `Certificate::verify`.
pub IsCertified-votes_form_quorum :
    (c : Committee) (vs : List Vote) (h : Header)
    → Fits c
    → All (λ v. 0 < stake c v.author) vs
    → All (IsCertified c h) (append_votes new_votes vs c h).1
unfolding new_votes check_votes stake_of contains
IsCertified-votes_form_quorum c vs h f p =
    append_votes-IsCertified c new_votes vs h 0 f p (new_votes-Tally c f)
      (record { checked = refl; names = λ n. refl })
