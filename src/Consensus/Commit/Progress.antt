-- ===== src/Consensus/Commit/Progress.antt =====
-- consensus/src/lib.rs: the committed rounds after a certificate is processed.
use dag_bft_sigmod.Base.{
  ℕ, ◌-◌, ◌%◌, ◌≡◌, refl, sym, subst, ap, ◌∙◌, arith, Option, some, List, [], ◌∷◌, ◌++◌, Bool-cases,
  Option-cases, inl, inr, ltb, leb, ◌==◌, ==_iff, not, ◌||◌, pred_u64, nat_eq, max, if◌then◌else◌,
}
use mathlib.Core.List.{reverse}
use dag_bft_sigmod.Base.Maps.{values, lookup, get_or}
use dag_bft_sigmod.Config.{PublicKey, Committee, validity_threshold}
use dag_bft_sigmod.Primary.Errors.{Round}
use dag_bft_sigmod.Primary.Messages.{Crypto, Certificate, round_of, origin}
use dag_bft_sigmod.Consensus.{State, update, leader}
use dag_bft_sigmod.Consensus.Cleanup.{TopIsMax, update_rounds}
use dag_bft_sigmod.Consensus.Leaders.{order_leaders}
use dag_bft_sigmod.Consensus.SubDag.{order_dag}
use dag_bft_sigmod.Consensus.Commit.{
  insert_certificate, support, commit_all, commit_leaders, commit_leader, decide,
  process_certificate,
}

-- The largest of the number and the rounds of the certificates.
unfoldable pub top_round : Round → List Certificate → Round
top_round r [] = r
top_round r (x ∷ xs) = top_round (max r (round_of x)) xs

-- The same, over the certificates of the author.
unfoldable pub top_round_of : PublicKey → Round → List Certificate → Round
top_round_of n r [] = r
top_round_of n r (x ∷ xs) = top_round_of n (if origin x == n then max r (round_of x) else r) xs

-- The last committed round of the author, 0 for none.
abbrev pub committed_round : PublicKey → State → Round
committed_round n s = get_or 0 (lookup n s.last_committed)

-- The committed rounds went up by the certificates, and no further.
abbrev pub Advances : State → State → List Certificate → Type 0
Advances s s' xs =
    TopIsMax s'
    × (s'.last_committed_round ≡ top_round s.last_committed_round xs)
    × ((n : PublicKey) → committed_round n s' ≡ top_round_of n (committed_round n s) xs)

top_round-append :
    (r : Round) (xs ys : List Certificate) → top_round r (xs ++ ys) ≡ top_round (top_round r xs) ys
unfolding top_round
top_round-append r [] ys = refl
top_round-append r (x ∷ xs) ys = top_round-append (max r (round_of x)) xs ys

top_round_of-append :
    (n : PublicKey) (r : Round) (xs ys : List Certificate)
    → top_round_of n r (xs ++ ys) ≡ top_round_of n (top_round_of n r xs) ys
unfolding top_round_of
top_round_of-append n r [] ys = refl
top_round_of-append n r (x ∷ xs) ys =
    top_round_of-append n (if origin x == n then max r (round_of x) else r) xs ys

commit_all-Advances :
    (gc_depth : ℕ) (s : State) (xs : List Certificate)
    → TopIsMax s
    → Advances s (commit_all gc_depth s xs) xs
unfolding commit_all top_round top_round_of
commit_all-Advances gc_depth s [] t = (t, refl, λ n. refl)
commit_all-Advances gc_depth s (x ∷ xs) t =
    let s1 = update s x gc_depth in
    let (t0, top0, of0) = update_rounds s x gc_depth 0 t in
    let (t1, top, of) = commit_all-Advances gc_depth s1 xs t0 in
    (
      t1,
      top ∙ ap (λ r. top_round r xs) top0,
      λ n.
          let here : committed_round n s1 ≡ (
              if origin x == n
              then max (committed_round n s) (round_of x)
              else committed_round n s) =
            (let (t2, top2, of2) = update_rounds s x gc_depth n t in
              ground (arith, of2, ==_iff (origin x) n)) in
          of n ∙ ap (λ r. top_round_of n r xs) here,
    )

Advances-some :
    (s0 s s' : State) (sequence result : List Certificate)
    → Advances s0 s sequence
    → ◌≡◌ {A = Option (State × List Certificate)} (some (s, sequence)) (some (s', result))
    → Advances s0 s' result
Advances-some s0 s s' sequence result a e =
    let same : s ≡ s' = cc in
    let seq : sequence ≡ result = cc in
    subst (λ z. Advances s0 z result) same (subst (Advances s0 s) seq a)

commit_leaders-Advances :
    (gc_depth : ℕ) (s0 s s' : State) (leaders sequence result : List Certificate)
    → Advances s0 s sequence
    → commit_leaders gc_depth s leaders sequence ≡ some (s', result)
    → Advances s0 s' result
unfolding commit_leaders
commit_leaders-Advances gc_depth s0 s s' [] sequence result a e =
    Advances-some s0 s s' sequence result a e
commit_leaders-Advances gc_depth s0 s s' (x ∷ xs) sequence result (t, top, of) e =
    elim (Option-cases (order_dag gc_depth x s)) [
      | inl n ↦ absurd (ground arith)
      | inr (ordered, o) ↦
          let s1 = commit_all gc_depth s ordered in
          let (t1, top1, of1) = commit_all-Advances gc_depth s ordered t in
          let later : commit_leaders gc_depth s1 xs (sequence ++ ordered) ≡ some (s', result) =
            ground arith in
          commit_leaders-Advances gc_depth s0 s1 s' xs (sequence ++ ordered) result
            (
              t1,
              top1
                  ∙ (ap (λ r. top_round r ordered) top
                      ∙ sym (top_round-append s0.last_committed_round sequence ordered)),
              λ n.
                  of1 n
                  ∙ (ap (λ r. top_round_of n r ordered) (of n)
                      ∙ sym (top_round_of-append n (committed_round n s0) sequence ordered)),
            )
            later
    ]

decide-Advances :
    (c : Committee) (gc_depth : ℕ) (s s' : State) (r : Round) (result : List Certificate)
    → TopIsMax s
    → decide c gc_depth s r ≡ some (s', result)
    → Advances s s' result
unfolding decide commit_leader top_round top_round_of
decide-Advances c gc_depth s s' r result t e =
    let stays : Advances s s [] = (t, refl, λ n. refl) in
    elim (Option-cases (leader c (r - 2) s.dag)) [
      | inl n ↦ Advances-some s s s' [] result stays (ground arith)
      | inr ((digest, newest), l) ↦ elim (Option-cases (lookup (r - 1) s.dag)) [
        | inl n ↦ absurd (ground arith)
        | inr (row, p) ↦
            elim (Bool-cases (ltb (support c digest (values row)) (validity_threshold c))) [
              | inl few ↦ Advances-some s s s' [] result stays (ground arith)
              | inr many ↦ elim (Option-cases (order_leaders c newest s)) [
                | inl n ↦ absurd (ground arith)
                | inr (leaders, o) ↦
                    commit_leaders-Advances gc_depth s s s' (reverse leaders) [] result stays
                      (ground arith)
              ]
            ]
      ]
    ]

-- If the last committed round is the largest of the authors' rounds, so it is after a certificate is
-- processed; it is the largest of what it was and the rounds of the committed certificates, and the
-- same holds of each author's round and the author's own certificates.
pub process_certificate-Advances :
    (crypto : Crypto) (c : Committee) (gc_depth : ℕ) (s s' : State) (x : Certificate)
    (result : List Certificate)
    → TopIsMax s
    → process_certificate crypto c gc_depth s x ≡ some (s', result)
    → Advances s s' result
unfolding process_certificate top_round top_round_of
process_certificate-Advances crypto c gc_depth s s' x result t e =
    let r = pred_u64 (round_of x) in
    let inserted = record s { dag = insert_certificate crypto x s.dag } in
    let stays : Advances s inserted [] = (t, refl, λ n. refl) in
    elim (Bool-cases (not (r % 2 == 0) || ltb r 4)) [
      | inl early ↦ Advances-some s inserted s' [] result stays (rw early at e)
      | inr late ↦ elim (Bool-cases (leb (r - 2) s.last_committed_round)) [
        | inl old ↦ Advances-some s inserted s' [] result stays (rw old at (rw late at e))
        | inr new ↦ decide-Advances c gc_depth inserted s' r result t (rw new at (rw late at e))
      ]
    ]
