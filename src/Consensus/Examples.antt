-- ===== src/Consensus/Examples.antt =====
-- A dag of four authorities and four rounds, and the theorems of `Consensus` at it.
use mathlib.Core.List.{Memᴰ}
use dag_bft_sigmod.Base.{
  ◌+◌, ◌-◌, ◌*◌, ◌/◌, ◌%◌, All, All_mem, ◌≤◌, ◌<◌, ◌≡◌, refl, sym, ◌⊎◌, inl, inr, List, [], ◌∷◌,
  some, true, contains, arith, subst, nat_eq, any, ◌↔◌, ◌∙◌, if◌then◌else◌, leb, ◌&&◌, none, u64,
}
use dag_bft_sigmod.Base.Maps.{lookup, values, get_or}
use dag_bft_sigmod.Config.{
  PublicKey, quorum_threshold, validity_threshold, sum_stakes, stake_in, stake, size,
}
use dag_bft_sigmod.Config.Thresholds.{stake_of}
use dag_bft_sigmod.Config.Examples.{four, four-Fits}
use dag_bft_sigmod.Primary.Errors.{Digest, Round}
use dag_bft_sigmod.Primary.Messages.{Certificate, same_certificate}
use dag_bft_sigmod.Consensus.{Row, Dag, State, leader, update}
use dag_bft_sigmod.Consensus.Purged.{entry_at}
use dag_bft_sigmod.Consensus.Cleanup.{IsProper, update_entries}
use dag_bft_sigmod.Consensus.SubDag.{entries, order_dag, in_depth}
use dag_bft_sigmod.Consensus.SubDag.Closure.{Descendant, UniqueDigests}
use dag_bft_sigmod.Consensus.SubDag.Rounds.{SortedByRound, order_dag_exact}
use dag_bft_sigmod.Consensus.Linked.{linked}
use dag_bft_sigmod.Consensus.Linked.Paths.{Descends, linked_iff_path}
use dag_bft_sigmod.Consensus.Linked.Support.{
  Entry, Founded, IsSupported, AllFounded, origins_if, supported-linked,
}
use dag_bft_sigmod.Consensus.Leaders.{order_leaders}
use dag_bft_sigmod.Consensus.Leaders.NoSkip.{RowsByRound, RowsPresent, supported_leader_ordered}
use dag_bft_sigmod.Consensus.Commit.{support}

-- The digest and the certificate of an author in a round; each cites the whole row below.
abbrev pub digest_of : Round → PublicKey → Digest
digest_of r a = 10 * r + a

abbrev pub digests_of : Round → List Digest
digests_of r = digest_of r 1 ∷ digest_of r 2 ∷ digest_of r 3 ∷ digest_of r 4 ∷ []

abbrev pub certificate_of : Round → PublicKey → Certificate
certificate_of r a = record {
  header = record {
    author = a;
    round = r;
    payload = [];
    parents = digests_of (r - 1);
    account_counts = [];
    avg_queue_delay_ms = 0;
    created_at = 0;
    id = digest_of r a;
    signature = 0;
  };
  votes = [];
}

abbrev pub entry_of : Round → PublicKey → Entry
entry_of r a = (digest_of r a, certificate_of r a)

abbrev pub row_of : Round → Row
row_of r = (1, entry_of r 1) ∷ (2, entry_of r 2) ∷ (3, entry_of r 3) ∷ (4, entry_of r 4) ∷ []

abbrev pub dag : Dag
dag = (2, row_of 2) ∷ (3, row_of 3) ∷ (4, row_of 4) ∷ []

abbrev pub state : State
state = record {
  last_committed_round = 0;
  last_committed = (1, 0) ∷ (2, 0) ∷ (3, 0) ∷ (4, 0) ∷ [];
  dag = dag;
}

row_cases :
    (r : Round) (row : Row)
    → lookup r dag ≡ some row
    → ((r ≡ 2) × (row ≡ row_of 2)) ⊎ (((r ≡ 3) × (row ≡ row_of 3)) ⊎ ((r ≡ 4) × (row ≡ row_of 4)))
unfolding lookup
row_cases r row h = ground arith

Founded-on_2 : (a : PublicKey) → Founded four dag 2 (certificate_of 3 a)
unfolding lookup contains origins_if quorum_threshold sum_stakes stake_of stake_in
Founded-on_2 a = record {
  row = row_of 2;
  present = refl;
  one_each = (refl, (refl, (refl, (refl, tt))));
  quorum = omega arith;
}

Founded-on_3 : (a : PublicKey) → Founded four dag 3 (certificate_of 4 a)
unfolding lookup contains origins_if quorum_threshold sum_stakes stake_of stake_in
Founded-on_3 a = record {
  row = row_of 3;
  present = refl;
  one_each = (refl, (refl, (refl, (refl, tt))));
  quorum = omega arith;
}

row_authors :
    (r : Round) (e : Entry) → Memᴰ e (values (row_of r)) → (a : PublicKey) × (e ≡ entry_of r a)
row_authors r e (Memᴰ.head h) = (1, h)
row_authors r e (Memᴰ.tail (Memᴰ.head h)) = (2, h)
row_authors r e (Memᴰ.tail (Memᴰ.tail (Memᴰ.head h))) = (3, h)
row_authors r e (Memᴰ.tail (Memᴰ.tail (Memᴰ.tail (Memᴰ.head h)))) = (4, h)
row_authors r e (Memᴰ.tail (Memᴰ.tail (Memᴰ.tail (Memᴰ.tail m)))) = elim m [ ]

all_founded : (base : Round) → 2 ≤ base → AllFounded four dag base
all_founded base low n row h e m = elim (row_cases (base + n + 1) row h) [
  | inl (r, same) ↦ absurd (omega arith)
  | inr (inl (r, same)) ↦
      let (a, is) = row_authors 3 e (subst (λ w. Memᴰ e (values w)) same m) in
      let at : 2 ≡ base + n = omega arith in
      subst (λ k. Founded four dag k e.1) at
        (subst (λ (t : Entry). Founded four dag 2 t.1) (sym is) (Founded-on_2 a))
  | inr (inr (r, same)) ↦
      let (a, is) = row_authors 4 e (subst (λ w. Memᴰ e (values w)) same m) in
      let at : 3 ≡ base + n = omega arith in
      subst (λ k. Founded four dag k e.1) at
        (subst (λ (t : Entry). Founded four dag 3 t.1) (sym is) (Founded-on_3 a))
]

rows_by_round : RowsByRound dag
rows_by_round r row h e m = elim (row_cases r row h) [
  | inl (q, same) ↦
      let (a, is) = row_authors 2 e (subst (λ w. Memᴰ e (values w)) same m) in ground arith
  | inr (inl (q, same)) ↦
      let (a, is) = row_authors 3 e (subst (λ w. Memᴰ e (values w)) same m) in ground arith
  | inr (inr (q, same)) ↦
      let (a, is) = row_authors 4 e (subst (λ w. Memᴰ e (values w)) same m) in ground arith
]

rows_present : RowsPresent dag 2 4
unfolding lookup
rows_present r low high = elim (two_or_three r low high) [
  | inl e ↦ (row_of 2, ground arith)
  | inr e ↦ (row_of 3, ground arith)
]
  where
    two_or_three : (r : Round) → 2 ≤ r → r < 4 → (r ≡ 2) ⊎ (r ≡ 3)
    two_or_three r a b = grind arith

IsSupported-2 : IsSupported four dag 2 (entry_of 2 3)
unfolding lookup support contains validity_threshold sum_stakes stake stake_in
IsSupported-2 = record {
  here = row_of 2;
  present = refl;
  entry = Memᴰ.tail (Memᴰ.tail (Memᴰ.head refl));
  above = row_of 3;
  present_above = refl;
  enough = omega arith;
}

supported-linked_fact : linked (certificate_of 4 1) (certificate_of 2 3) dag ≡ some true
unfolding linked lookup any contains same_certificate
supported-linked_fact = refl

supported-linked_example : linked (certificate_of 4 1) (certificate_of 2 3) dag ≡ some true
supported-linked_example =
    supported-linked four dag (entry_of 2 3) 0 (certificate_of 4 1) four-Fits IsSupported-2
      (all_founded 2 (omega arith)) (Founded-on_3 1) refl

supported_leader_ordered_example :
    (ls : List Certificate) × (order_leaders four (certificate_of 4 1) state ≡ some ls)
    × Memᴰ (certificate_of 2 3) ls
unfolding leader lookup size
supported_leader_ordered_example =
    supported_leader_ordered four state (certificate_of 4 1) (entry_of 2 3) 0
      (record { fits = four-Fits; by_round = rows_by_round; founded = λ r low. all_founded r low })
      rows_present
      (record { row = row_of 4; present = refl; digest = digest_of 4 1; entry = Memᴰ.head refl })
      refl (omega arith) refl IsSupported-2

linked_iff_path_example : (true ≡ true) ↔ (
    (z : Certificate) × Descends dag 2 (4 - 2) (certificate_of 4 1) z
    × (same_certificate z (certificate_of 2 3) ≡ true))
linked_iff_path_example =
    linked_iff_path dag (certificate_of 4 1) (certificate_of 2 3) true supported-linked_fact

unique_digests : UniqueDigests dag
unfolding entries
unique_digests d x y mx my = sym (All_mem IsDecoded mx decoded) ∙ All_mem IsDecoded my decoded
  where
    IsDecoded : Entry → Type 0
    IsDecoded e = certificate_of (e.0 / 10) (e.0 % 10) ≡ e.1

    decoded : All IsDecoded (entries dag)
    decoded = (
      refl,
      (refl, (refl, (refl, (refl, (refl, (refl, (refl, (refl, (refl, (refl, (refl, tt))))))))))),
    )

order_dag_exact_example :
    (out : List Certificate) × (order_dag 50 (certificate_of 4 1) state ≡ some out)
    × SortedByRound out
    × ((x : Certificate)
        → Memᴰ x out ↔ (Descendant state (certificate_of 4 1) x × (in_depth 50 state x ≡ true)))
order_dag_exact_example = order_dag_exact 50 (certificate_of 4 1) state unique_digests

state-IsProper : IsProper state
unfolding contains
state-IsProper = record {
  rounds = (refl, (refl, (refl, tt)));
  authors = (refl, (refl, (refl, (refl, tt))));
}

update_entries_example :
    let s' = update state (certificate_of 3 2) 50 in
    IsProper s'
    × (entry_at 2 2 s'.dag ≡ (
        if leb (get_or 0 (lookup 2 s'.last_committed)) 2
          && leb s'.last_committed_round (u64 (2 + 50))
        then entry_at 2 2 state.dag
        else none))
update_entries_example = update_entries state (certificate_of 3 2) 50 2 2 state-IsProper
