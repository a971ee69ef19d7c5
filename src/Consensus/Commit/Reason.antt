-- ===== src/Consensus/Commit/Reason.antt =====
-- consensus/src/lib.rs: what a commit needs.
use mathlib.Core.List.{Memᴰ}
use dag_bft_sigmod.Base.{
  refl, sym, subst, ap, if◌then◌else◌, ◌&&◌, ◌⊎◌, Distinct, contains, true, false, [], ℕ, ◌-◌, ◌%◌,
  ◌≤◌, ◌<◌, ◌≡◌, arith, some, List, Bool-cases, Option-cases, inl, inr, ltb, leb, ◌==◌, ==_iff, not,
  ◌||◌, pred_u64, nat_eq,
}
use dag_bft_sigmod.Base.Maps.{values, lookup, keys, insert, get_or, lookup-insert}
use dag_bft_sigmod.Consensus.Purged.{entry_at}
use dag_bft_sigmod.Config.{PublicKey, Committee, validity_threshold}
use dag_bft_sigmod.Primary.Errors.{Digest, Round}
use dag_bft_sigmod.Primary.Messages.{Crypto, Certificate, round_of, origin, certificate_digest}
use dag_bft_sigmod.Consensus.{State, Dag, Row, leader}
use dag_bft_sigmod.Config.Thresholds.{Fits, stake_of}
use dag_bft_sigmod.Consensus.Elected.{IsElected, leader-IsElected}
use dag_bft_sigmod.Consensus.Linked.Support.{
  Entry, cites, origins, origins_if, origins_if-Distinct, origins_if_mem, support-eq,
}
use dag_bft_sigmod.Consensus.Commit.{insert_certificate, support, decide, process_certificate}

insert_certificate_other :
    (crypto : Crypto) (x : Certificate) (dag : Dag) (q : Round) (row : Row)
    → (round_of x == q) ≡ false
    → lookup q (insert_certificate crypto x dag) ≡ some row
    → lookup q dag ≡ some row
unfolding insert_certificate
insert_certificate_other crypto x dag q row other h =
    let own = get_or [] (lookup (round_of x) dag) in
    let new = insert (origin x) (certificate_digest crypto x, x) own in
    ground (arith, lookup-insert (round_of x) q new dag)

-- The leader of two rounds before `r` is in the dag, and certificates of the row between, of different
-- authors with f + 1 of stake, cite it.
pub record HasSupport (c : Committee) (dag : Dag) (r : Round) : Type 0 where
  pub digest : Digest
  pub newest : Certificate
  pub elected : IsElected c dag (r - 2) digest newest
  pub row : Row
  pub present : lookup (r - 1) dag ≡ some row
  pub supporters : List PublicKey
  pub different : Distinct supporters
  pub cite :
      (n : PublicKey)
      → contains supporters n ≡ true
      → (e : Entry) × Memᴰ e (values row) × (cites digest e ≡ true) × (origin e.1 ≡ n)
  pub enough : validity_threshold c ≤ stake_of c.authorities supporters

-- Each row has one certificate of an author.
abbrev pub OnePerAuthor : Dag → Type 0
OnePerAuthor dag =
    (q : Round) (row : Row) → lookup q dag ≡ some row → Distinct (origins (values row))

IsElected-insert :
    (crypto : Crypto) (c : Committee) (x : Certificate) (dag : Dag) (q : Round) (digest : Digest)
    (newest : Certificate)
    → (round_of x == q) ≡ false
    → IsElected c (insert_certificate crypto x dag) q digest newest
    → IsElected c dag q digest newest
IsElected-insert crypto c x dag q digest newest other e = record {
  name = e.name;
  row = e.row;
  member = e.member;
  turn = e.turn;
  present = insert_certificate_other crypto x dag q e.row other e.present;
  certificate = e.certificate;
}

-- Nothing is committed, and the dag has the certificate at its place, and is otherwise the same.
pub record OnlyAdds (crypto : Crypto) (s s' : State) (x : Certificate) (sequence : List Certificate)
    : Type 0 where
  pub nothing : sequence ≡ []
  pub top : s'.last_committed_round ≡ s.last_committed_round
  pub committed : s'.last_committed ≡ s.last_committed
  pub place :
      (q : Round) (n : PublicKey)
      → entry_at q n s'.dag ≡ (
          if round_of x == q && origin x == n
          then some (certificate_digest crypto x, x)
          else entry_at q n s.dag)

entry_at-insert :
    (crypto : Crypto) (x : Certificate) (dag : Dag) (q : Round) (n : PublicKey)
    → entry_at q n (insert_certificate crypto x dag) ≡ (
        if round_of x == q && origin x == n
        then some (certificate_digest crypto x, x)
        else entry_at q n dag)
unfolding insert_certificate lookup
entry_at-insert crypto x dag q n =
    let own = get_or [] (lookup (round_of x) dag) in
    let entry : Entry = (certificate_digest crypto x, x) in
    let rows = lookup-insert (round_of x) q (insert (origin x) entry own) dag in
    elim (Bool-cases (round_of x == q)) [
      | inl same ↦
          let key : round_of x ≡ q = (==_iff (round_of x) q).0 same in
          let before : lookup (round_of x) dag ≡ lookup q dag = ap (λ k. lookup k dag) key in
          ground (arith, rows, lookup-insert (origin x) n entry own, before)
      | inr other ↦ ground (arith, rows)
    ]

insert_certificate-OnlyAdds :
    (crypto : Crypto) (s s' : State) (x : Certificate) (sequence : List Certificate)
    → s' ≡ record s { dag = insert_certificate crypto x s.dag }
    → sequence ≡ []
    → OnlyAdds crypto s s' x sequence
insert_certificate-OnlyAdds crypto s s' x sequence e nothing =
    subst (λ t. OnlyAdds crypto s t x sequence) (sym e)
      (record {
        nothing = nothing;
        top = refl;
        committed = refl;
        place = entry_at-insert crypto x s.dag;
      })

decide-HasSupport :
    (crypto : Crypto) (c : Committee) (gc_depth : ℕ) (s s' : State) (x : Certificate)
    (sequence : List Certificate) (r : Round)
    → Fits c
    → Distinct (keys c.authorities)
    → OnePerAuthor s.dag
    → (round_of x == (r - 2)) ≡ false
    → (round_of x == (r - 1)) ≡ false
    → decide c gc_depth (record s { dag = insert_certificate crypto x s.dag }) r
      ≡ some (s', sequence)
    → OnlyAdds crypto s s' x sequence ⊎ HasSupport c s.dag r
unfolding decide
decide-HasSupport crypto c gc_depth s s' x sequence r f d one a b e =
    let dag = insert_certificate crypto x s.dag in
    elim (Option-cases (leader c (r - 2) dag)) [
      | inl n ↦
          inl (insert_certificate-OnlyAdds crypto s s' x sequence (ground arith) (ground arith))
      | inr ((digest, newest), l) ↦ elim (Option-cases (lookup (r - 1) dag)) [
        | inl n ↦ absurd (ground arith)
        | inr (row, p) ↦
            elim (Bool-cases (ltb (support c digest (values row)) (validity_threshold c))) [
              | inl few ↦
                  inl (
                    insert_certificate-OnlyAdds crypto s s' x sequence (ground arith)
                      (ground arith))
              | inr enough ↦
                  let p' = insert_certificate_other crypto x s.dag (r - 1) row b p in
                  let authors = one (r - 1) row p' in
                  let known : validity_threshold c ≤ support c digest (values row) = ground arith in
                  inr (record {
                    digest = digest;
                    newest = newest;
                    elected =
                        IsElected-insert crypto c x s.dag (r - 2) digest newest a
                          (leader-IsElected c dag (r - 2) digest newest d l);
                    row = row;
                    present = p';
                    supporters = origins_if (cites digest) (values row);
                    different = origins_if-Distinct (cites digest) (values row) authors;
                    cite = λ n m. origins_if_mem (cites digest) (values row) n m;
                    enough = omega (arith, known, support-eq c digest (values row) f authors);
                  })
            ]
      ]
    ]

-- If the stakes fit, the committee lists each authority once, and the dag has one certificate of an
-- author in each round: when a certificate arrives, with no panic, either nothing is committed and the
-- dag has it under its round and author, every other place and the committed rounds being as before; or
-- its round less one is an even round `r` of at least 4, and round `r - 2` is above the last committed
-- round; the authority whose turn it is in round `r - 2` by the order of the keys has a certificate of
-- that round in the dag, and authorities with f + 1 of stake have certificates of round `r - 1` there
-- that cite it, all of them from before the arrival.
pub process_certificate-HasSupport :
    (crypto : Crypto) (c : Committee) (gc_depth : ℕ) (s s' : State) (x : Certificate)
    (sequence : List Certificate)
    → Fits c
    → Distinct (keys c.authorities)
    → OnePerAuthor s.dag
    → process_certificate crypto c gc_depth s x ≡ some (s', sequence)
    → OnlyAdds crypto s s' x sequence
      ⊎ ((pred_u64 (round_of x) % 2 ≡ 0)
          × (4 ≤ pred_u64 (round_of x))
          × (s.last_committed_round < pred_u64 (round_of x) - 2)
          × HasSupport c s.dag (pred_u64 (round_of x)))
unfolding process_certificate
process_certificate-HasSupport crypto c gc_depth s s' x sequence f d one e =
    let r = pred_u64 (round_of x) in
    let inserted = record s { dag = insert_certificate crypto x s.dag } in
    elim (Bool-cases (not (r % 2 == 0) || ltb r 4)) [
      | inl early ↦
          inl (insert_certificate-OnlyAdds crypto s s' x sequence (ground arith) (ground arith))
      | inr late ↦ elim (Bool-cases (leb (r - 2) s.last_committed_round)) [
        | inl old ↦
            inl (insert_certificate-OnlyAdds crypto s s' x sequence (ground arith) (ground arith))
        | inr new ↦
            let decided : decide c gc_depth inserted r ≡ some (s', sequence) = ground arith in
            elim (decide-HasSupport crypto c gc_depth s s' x sequence r f d one
              (ground (arith, ==_iff (round_of x) (r - 2)))
              (ground (arith, ==_iff (round_of x) (r - 1))) decided) [
                | inl only ↦ inl only
                | inr due ↦ inr (ground (arith, ==_iff (r % 2) 0), ground arith, ground arith, due)
              ]
      ]
    ]
