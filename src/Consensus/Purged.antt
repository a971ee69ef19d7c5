-- ===== src/Consensus/Purged.antt =====
-- consensus/src/lib.rs: what the two clean-up loops of `State::update` leave in the dag.
use dag_bft_sigmod.Base.{
  ℕ, ◌+◌, ◌≡◌, refl, inl, inr, Bool, true, false, not, ◌&&◌, ◌||◌, max, Option, none, some, [], ◌∷◌,
  arith, nat_eq, Option-cases, if◌then◌else◌, leb, ◌==◌, ==_iff, u64, is_empty, contains, Distinct,
}
use dag_bft_sigmod.Base.Keys.{lookup-absent, insert-Distinct}
use dag_bft_sigmod.Base.Maps.{Map, keys, lookup, insert, retain, get_or}
use dag_bft_sigmod.Config.{PublicKey}
use dag_bft_sigmod.Primary.Errors.{Digest, Round}
use dag_bft_sigmod.Primary.Messages.{Certificate}
use dag_bft_sigmod.Consensus.{Row, Dag, commit_round, purge, purge_all}

-- The entry of an author in a round.
abbrev pub entry_at : Round → PublicKey → Dag → Option (Digest × Certificate)
entry_at r n dag = elim (lookup r dag) [ none ↦ none | some row ↦ lookup n row ]

pub lookup-retain :
    (n : PublicKey) (p : PublicKey → Bool) (row : Row)
    → lookup n (retain (λ k _. p k) row) ≡ (if p n then lookup n row else none)
unfolding lookup retain
lookup-retain n p [] = ground arith
lookup-retain n p ((k, e) ∷ row) = ground (arith, ==_iff k n, lookup-retain n p row)

-- The entry of round `r` outlives one author's turn.
abbrev pub outlives : PublicKey → Round → PublicKey → Round → Bool
outlives name round n r = not (n == name) || leb round r

pub purge_absent :
    (gc top : ℕ) (name : PublicKey) (round q : Round) (dag : Dag)
    → contains (keys dag) q ≡ false
    → contains (keys (purge gc top name round dag)) q ≡ false
unfolding purge contains
purge_absent gc top name round q [] h = refl
purge_absent gc top name round q ((r, row) ∷ rows) h =
    ground (arith, purge_absent gc top name round q rows)

pub purge-Distinct :
    (gc top : ℕ) (name : PublicKey) (round : Round) (dag : Dag)
    → Distinct (keys dag)
    → Distinct (keys (purge gc top name round dag))
unfolding purge
purge-Distinct gc top name round [] d = tt
purge-Distinct gc top name round ((r, row) ∷ rows) d =
    ground
      (arith, purge-Distinct gc top name round rows d.1, purge_absent gc top name round r rows d.0)

pub lookup-is_empty : (n : PublicKey) (row : Row) → is_empty row ≡ true → lookup n row ≡ none
unfolding lookup
lookup-is_empty n [] h = refl
lookup-is_empty n (e ∷ row) h = absurd (cc)

pub entry_at-purge :
    (gc top : ℕ) (name : PublicKey) (round r : Round) (n : PublicKey) (dag : Dag)
    → Distinct (keys dag)
    → entry_at r n (purge gc top name round dag)
      ≡ (if outlives name round n r && leb top (u64 (r + gc)) then entry_at r n dag else none)
unfolding purge lookup
entry_at-purge gc top name round r n [] d = ground arith
entry_at-purge gc top name round r n ((q, row) ∷ rows) d = ground (
  arith,
  ==_iff q r,
  entry_at-purge gc top name round r n rows d.1,
  lookup-absent q rows d.0,
  lookup-absent q (purge gc top name round rows) (purge_absent gc top name round q rows d.0),
  lookup-retain n (λ k. outlives name round k q) row,
  lookup-is_empty n (retain (λ k _. outlives name round k q) row),
)

-- No author has committed a later round than `r` for the entry's author `n`.
unfoldable pub outlives_all : Map PublicKey Round → PublicKey → Round → Bool
outlives_all [] n r = true
outlives_all ((name, round) ∷ m) n r =
    let rest = outlives_all m n r in outlives name round n r && rest

pub purge_all-Distinct :
    (gc top : ℕ) (m : Map PublicKey Round) (dag : Dag)
    → Distinct (keys dag)
    → Distinct (keys (purge_all gc top m dag))
unfolding purge_all
purge_all-Distinct gc top [] dag d = d
purge_all-Distinct gc top ((name, round) ∷ m) dag d =
    purge_all-Distinct gc top m (purge gc top name round dag)
      (purge-Distinct gc top name round dag d)

pub entry_at-purge_all :
    (gc top : ℕ) (m : Map PublicKey Round) (r : Round) (n : PublicKey) (dag : Dag)
    → Distinct (keys dag)
    → entry_at r n (purge_all gc top m dag) ≡ (
        if outlives_all m n r && (is_empty m || leb top (u64 (r + gc)))
        then entry_at r n dag
        else none)
unfolding purge_all outlives_all
entry_at-purge_all gc top [] r n dag d = refl
entry_at-purge_all gc top ((name, round) ∷ m) r n dag d = ground (
  arith,
  entry_at-purge_all gc top m r n (purge gc top name round dag)
      (purge-Distinct gc top name round dag d),
  entry_at-purge gc top name round r n dag d,
)

pub outlives_all-absent :
    (m : Map PublicKey Round) (n : PublicKey) (r : Round)
    → contains (keys m) n ≡ false
    → outlives_all m n r ≡ true
unfolding outlives_all contains
outlives_all-absent [] n r h = refl
outlives_all-absent ((name, round) ∷ m) n r h =
    ground (arith, ==_iff n name, ==_iff name n, outlives_all-absent m n r)

-- With one round for each author, only the author's own round counts.
pub outlives_all-lookup :
    (m : Map PublicKey Round) (n : PublicKey) (r : Round)
    → Distinct (keys m)
    → outlives_all m n r ≡ leb (get_or 0 (lookup n m)) r
unfolding outlives_all lookup
outlives_all-lookup [] n r d = ground arith
outlives_all-lookup ((name, round) ∷ m) n r d =
    ground (
      arith,
      ==_iff n name,
      ==_iff name n,
      outlives_all-absent m n r,
      outlives_all-lookup m n r d.1,
    )

pub commit_round-Distinct :
    (name : PublicKey) (round : Round) (m : Map PublicKey Round)
    → Distinct (keys m)
    → Distinct (keys (commit_round name round m))
unfolding commit_round
commit_round-Distinct name round m d = elim (Option-cases (lookup name m)) [
  | inl e ↦ rw (e, commit_round) (insert-Distinct name round m d)
  | inr (r, e) ↦ rw (e, commit_round) (insert-Distinct name (max r round) m d)
]

pub commit_round_nonempty :
    (name : PublicKey) (round : Round) (m : Map PublicKey Round)
    → is_empty (commit_round name round m) ≡ false
unfolding commit_round lookup insert
commit_round_nonempty name round [] = refl
commit_round_nonempty name round ((j, w) ∷ m) = ground arith
