-- ===== src/Consensus/Cleanup.antt =====
-- consensus/src/lib.rs: what `State::update` does to the committed rounds and to the dag.
use dag_bft_sigmod.Base.{
  ℕ, ◌+◌, ◌≡◌, refl, sym, ◌∙◌, ap, inl, inr, ◌&&◌, max, none, some, [], ◌∷◌, arith, nat_eq,
  Option-cases, if◌then◌else◌, leb, ◌==◌, u64, Distinct,
}
use dag_bft_sigmod.Base.Maps.{Map, keys, values, lookup, insert, get_or, lookup-insert}
use dag_bft_sigmod.Config.{PublicKey}
use dag_bft_sigmod.Primary.Errors.{Round}
use dag_bft_sigmod.Primary.Messages.{Certificate, round_of, origin}
use dag_bft_sigmod.Consensus.{State, commit_round, max_round, update}
use dag_bft_sigmod.Consensus.Purged.{
  entry_at, purge_all-Distinct, entry_at-purge_all, outlives_all-lookup, commit_round-Distinct,
  commit_round_nonempty,
}

lookup-commit_round :
    (n name : PublicKey) (round : Round) (m : Map PublicKey Round)
    → lookup n (commit_round name round m)
      ≡ (if name == n then some (max (get_or 0 (lookup name m)) round) else lookup n m)
unfolding commit_round
lookup-commit_round n name round m = elim (Option-cases (lookup name m)) [
  | inl e ↦ rw (e, commit_round) (ground (arith, lookup-insert name n round m))
  | inr (r, e) ↦ rw (e, commit_round) (ground (arith, lookup-insert name n (max r round) m))
]

max_round-insert :
    (name : PublicKey) (old new : Round) (m : Map PublicKey Round)
    → lookup name m ≡ some old
    → max_round (values (insert name (max old new) m)) ≡ max (max_round (values m)) new
unfolding lookup insert max_round
max_round-insert name old new [] h = absurd (cc)
max_round-insert name old new ((j, w) ∷ m) h = ground (arith, max_round-insert name old new m)

max_round-insert_new :
    (name : PublicKey) (new : Round) (m : Map PublicKey Round)
    → lookup name m ≡ none
    → max_round (values (insert name new m)) ≡ max (max_round (values m)) new
unfolding lookup insert max_round
max_round-insert_new name new [] h = ground arith
max_round-insert_new name new ((j, w) ∷ m) h = ground (arith, max_round-insert_new name new m)

max_round-commit_round :
    (name : PublicKey) (round : Round) (m : Map PublicKey Round)
    → max_round (values (commit_round name round m)) ≡ max (max_round (values m)) round
unfolding commit_round
max_round-commit_round name round m = elim (Option-cases (lookup name m)) [
  | inl e ↦ rw (e, commit_round) (max_round-insert_new name round m e)
  | inr (r, e) ↦ rw (e, commit_round) (max_round-insert name r round m e)
]

-- The last committed round is the largest of the authors' committed rounds.
abbrev pub TopIsMax : State → Type 0
TopIsMax s = s.last_committed_round ≡ max_round (values s.last_committed)

-- An update moves the committed round of the certificate's author, and the last committed round,
-- up to the certificate's round and never back, and leaves those of the other authors.
pub update_rounds :
    (s : State) (x : Certificate) (gc_depth : ℕ) (n : PublicKey)
    → TopIsMax s
    → TopIsMax (update s x gc_depth)
      × ((update s x gc_depth).last_committed_round ≡ max s.last_committed_round (round_of x))
      × (lookup n (update s x gc_depth).last_committed ≡ (
          if origin x == n
          then some (max (get_or 0 (lookup (origin x) s.last_committed)) (round_of x))
          else lookup n s.last_committed))
unfolding update
update_rounds s x gc_depth n t = (
  refl,
  max_round-commit_round (origin x) (round_of x) s.last_committed
      ∙ ap (λ k. max k (round_of x)) (sym t),
  lookup-commit_round n (origin x) (round_of x) s.last_committed,
)

-- Each round, and each author, has one place in the state.
pub record IsProper (s : State) : Type 0 where
  pub rounds : Distinct (keys s.dag)
  pub authors : Distinct (keys s.last_committed)

-- The clean-up of an update keeps exactly the entries that are not below their author's committed
-- round and whose round is within the garbage collector's depth of the last committed round.
pub update_entries :
    (s : State) (x : Certificate) (gc_depth : ℕ) (r : Round) (n : PublicKey)
    → IsProper s
    → let s' = update s x gc_depth in
      IsProper s'
      × (entry_at r n s'.dag ≡ (
          if leb (get_or 0 (lookup n s'.last_committed)) r
            && leb s'.last_committed_round (u64 (r + gc_depth))
          then entry_at r n s.dag
          else none))
unfolding update
update_entries s x gc_depth r n p =
    let authors = commit_round-Distinct (origin x) (round_of x) s.last_committed p.authors in
    let committed = commit_round (origin x) (round_of x) s.last_committed in
    (
      record { rounds = purge_all-Distinct gc_depth _ committed s.dag p.rounds; authors = authors },
      ground (
        arith,
        entry_at-purge_all gc_depth (max_round (values committed)) committed r n s.dag p.rounds,
        outlives_all-lookup committed n r authors,
        commit_round_nonempty (origin x) (round_of x) s.last_committed,
      ),
    )
