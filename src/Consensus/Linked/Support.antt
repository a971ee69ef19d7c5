-- ===== src/Consensus/Linked/Support.antt =====
-- consensus/src/lib.rs: a leader with enough support is linked to every later certificate.
use mathlib.Core.List.{Memᴰ}
use dag_bft_sigmod.Base.{
  ℕ, zero, suc, ◌+◌, ◌-◌, ◌≤◌, ◌<◌, ◌≡◌, refl, sym, ◌∙◌, ap, inl, inr, Bool, true, false, some,
  List, [], ◌∷◌, arith, if◌then◌else◌, contains, any, nat_eq, Bool-cases, subst, Distinct, ◌==◌,
  ==_iff,
}
use dag_bft_sigmod.Base.Maps.{lookup, values}
use dag_bft_sigmod.Config.{PublicKey, Committee, stake, quorum_threshold, validity_threshold}
use dag_bft_sigmod.Config.Thresholds.{
  Fits, stake_of, stake_of-le_sum, quorum-pos, quorum-meets_validity,
}
use dag_bft_sigmod.Primary.Errors.{Digest, Round}
use dag_bft_sigmod.Primary.Messages.{Certificate, round_of, origin, same_certificate}
use dag_bft_sigmod.Consensus.{Dag, Row}
use dag_bft_sigmod.Consensus.Linked.{walk, linked, parents_in}
use dag_bft_sigmod.Consensus.Linked.Paths.{Descends, stop, down, linked_iff_path}
use dag_bft_sigmod.Consensus.Commit.{support}

abbrev pub Entry : Type 0
Entry = Digest × Certificate

-- The authors of the entries that pass a test.
unfoldable pub origins_if : (Entry → Bool) → List Entry → List PublicKey
origins_if p [] = []
origins_if p (e ∷ row) = let rest = origins_if p row in if p e then origin e.1 ∷ rest else rest

abbrev pub origins : List Entry → List PublicKey
origins [] = []
origins (e ∷ row) = origin e.1 ∷ origins row

-- The certificate cites the entry; the entry cites the digest.
abbrev pub is_cited_by : Certificate → Entry → Bool
is_cited_by x e = contains x.header.parents e.0

abbrev pub cites : Digest → Entry → Bool
cites d e = contains e.1.header.parents d

origins_if_absent :
    (p : Entry → Bool) (row : List Entry) (n : PublicKey)
    → contains (origins row) n ≡ false
    → contains (origins_if p row) n ≡ false
unfolding origins_if contains
origins_if_absent p [] n h = refl
origins_if_absent p (e ∷ row) n h = ground (arith, origins_if_absent p row n)

pub origins_if-Distinct :
    (p : Entry → Bool) (row : List Entry) → Distinct (origins row) → Distinct (origins_if p row)
unfolding origins_if
origins_if-Distinct p [] d = tt
origins_if-Distinct p (e ∷ row) d =
    ground (arith, origins_if-Distinct p row d.1, origins_if_absent p row (origin e.1) d.0)

pub origins_if_mem :
    (p : Entry → Bool) (row : List Entry) (n : PublicKey)
    → contains (origins_if p row) n ≡ true
    → (e : Entry) × Memᴰ e row × (p e ≡ true) × (origin e.1 ≡ n)
unfolding origins_if contains
origins_if_mem p [] n h = absurd (cc)
origins_if_mem p (e ∷ row) n h = elim (Bool-cases (p e)) [
  | inl t ↦ elim (Bool-cases (origin e.1 == n)) [
    | inl same ↦ (e, Memᴰ.head refl, t, (==_iff (origin e.1) n).0 same)
    | inr other ↦
        let (e', m, t', o) = origins_if_mem p row n (ground arith) in (e', Memᴰ.tail m, t', o)
  ]
  | inr f ↦ let (e', m, t', o) = origins_if_mem p row n (ground arith) in (e', Memᴰ.tail m, t', o)
]

contains-origins :
    (row : List Entry) {e : Entry} → Memᴰ e row → contains (origins row) (origin e.1) ≡ true
unfolding contains
contains-origins [] m = elim m [ ]
contains-origins (e' ∷ row) {e} (Memᴰ.head same) =
    ground (arith, ap (λ (t : Entry). origin t.1) same, ==_iff (origin e'.1) (origin e.1))
contains-origins (e' ∷ row) (Memᴰ.tail m) = ground (arith, contains-origins row m)

-- With one entry for each author, two entries of one author are the same.
entry_unique :
    (row : List Entry) {e f : Entry}
    → Distinct (origins row)
    → Memᴰ e row
    → Memᴰ f row
    → origin e.1 ≡ origin f.1
    → e ≡ f
entry_unique [] d me mf h = elim me [ ]
entry_unique (g ∷ row) d (Memᴰ.head a) (Memᴰ.head b) h = a ∙ sym b
entry_unique (g ∷ row) d (Memᴰ.head a) (Memᴰ.tail mf) h =
    absurd (cc (d.0, contains-origins row mf, ap (λ (t : Entry). origin t.1) a))
entry_unique (g ∷ row) d (Memᴰ.tail me) (Memᴰ.head b) h =
    absurd (cc (d.0, contains-origins row me, ap (λ (t : Entry). origin t.1) b))
entry_unique (g ∷ row) d (Memᴰ.tail me) (Memᴰ.tail mf) h = entry_unique row d.1 me mf h

pub support-eq :
    (c : Committee) (d : Digest) (row : List Entry)
    → Fits c
    → Distinct (origins row)
    → support c d row ≡ stake_of c.authorities (origins_if (cites d) row)
unfolding support stake_of stake origins_if
support-eq c d [] f u = refl
support-eq c d (e ∷ row) f u = ground (
  arith,
  support-eq c d row f u.1,
  stake_of-le_sum c.authorities (origins_if (cites d) (e ∷ row)),
  origins_if-Distinct (cites d) (e ∷ row) u,
)

-- The certificate's parents in the row hold a quorum, and the row has one entry for each author:
-- what the core checks of a header before it votes.
pub record Founded (c : Committee) (dag : Dag) (base : Round) (x : Certificate) : Type 0 where
  pub row : Row
  pub present : lookup base dag ≡ some row
  pub one_each : Distinct (origins (values row))
  pub quorum : quorum_threshold c ≤ stake_of c.authorities (origins_if (is_cited_by x) (values row))

-- The entry is supported by the row above it.
pub record IsSupported (c : Committee) (dag : Dag) (base : Round) (e : Entry) : Type 0 where
  pub here : Row
  pub present : lookup base dag ≡ some here
  pub entry : Memᴰ e (values here)
  pub above : Row
  pub present_above : lookup (base + 1) dag ≡ some above
  pub enough : validity_threshold c ≤ support c e.0 (values above)

-- Every certificate of the rows above `base` is founded on the row below its own.
abbrev pub AllFounded : Committee → Dag → Round → Type 0
AllFounded c dag base =
    (n : ℕ) (row : Row)
    → lookup (base + n + 1) dag ≡ some row
    → (e : Entry) → Memᴰ e (values row)
    → Founded c dag (base + n) e.1

at_round :
    (dag : Dag) {r r' : Round} {row : Row}
    → r ≡ r'
    → lookup r dag ≡ some row
    → lookup r' dag ≡ some row
at_round dag {row = row} e = subst (λ t. lookup t dag ≡ some row) e

-- Two rows above a supported entry, a founded certificate has a path to it.
two_rows_above :
    (c : Committee) (dag : Dag) (base : Round) (e : Entry) (x : Certificate)
    → Fits c
    → IsSupported c dag base e
    → Founded c dag (base + 1) x
    → Descends dag base 2 x e.1
two_rows_above c dag base e x fits s f =
    let same : s.above ≡ f.row = ground (arith, s.present_above, f.present) in
    let enough : validity_threshold c ≤ support c e.0 (values f.row) =
      subst (λ r. validity_threshold c ≤ support c e.0 (values r)) same s.enough in
    let (n, cited, citing) =
      quorum-meets_validity c (origins_if (is_cited_by x) (values f.row))
        (origins_if (cites e.0) (values f.row)) fits
        (origins_if-Distinct (is_cited_by x) (values f.row) f.one_each)
        (origins_if-Distinct (cites e.0) (values f.row) f.one_each) f.quorum
        (rw (← support-eq c e.0 (values f.row) fits f.one_each) enough) in
    let (y, my, py, oy) = origins_if_mem (is_cited_by x) (values f.row) n cited in
    let (z, mz, pz, oz) = origins_if_mem (cites e.0) (values f.row) n citing in
    let one : y ≡ z = entry_unique (values f.row) f.one_each my mz (oy ∙ sym oz) in
    down f.row y.0 f.present my py (
      down s.here e.0 (at_round dag (omega arith) s.present) s.entry (ap (cites e.0) one ∙ pz) stop)

some_cited :
    (c : Committee) (p : Entry → Bool) (row : List Entry)
    → 0 < stake_of c.authorities (origins_if p row)
    → (e : Entry) × Memᴰ e row × (p e ≡ true)
unfolding stake_of origins_if
some_cited c p [] h = absurd (omega arith)
some_cited c p (e ∷ row) h = elim (Bool-cases (p e)) [
  | inl t ↦ (e, Memᴰ.head refl, t)
  | inr f ↦ let (e', m, t) = some_cited c p row (ground arith) in (e', Memᴰ.tail m, t)
]

supported-Descends :
    (c : Committee) (dag : Dag) (base : Round) (e : Entry) (n : ℕ) (x : Certificate)
    → Fits c
    → IsSupported c dag base e
    → AllFounded c dag base
    → Founded c dag (base + suc n) x
    → Descends dag base (suc (suc n)) x e.1
supported-Descends c dag base e zero x fits s all f = two_rows_above c dag base e x fits s f
supported-Descends c dag base e (suc n) x fits s all f =
    let (y, my, py) =
      some_cited c (is_cited_by x) (values f.row) (omega (arith, f.quorum, quorum-pos c fits)) in
    let present : lookup (base + suc n + 1) dag ≡ some f.row =
      at_round dag (omega arith) f.present in
    down f.row y.0 f.present my py
      (supported-Descends c dag base e n y.1 fits s all (all (suc n) f.row present y my))

walk_of_path :
    (dag : Dag) (base : Round) (n : ℕ) (xs : List Certificate) {x z : Certificate}
    → Descends dag base n x z
    → (zs : List Certificate) × (walk dag n base xs ≡ some zs)
unfolding walk
walk_of_path dag base zero xs stop = (xs, refl)
walk_of_path dag base (suc n) xs (down row d e m p path) =
    let (zs, w) = walk_of_path dag base n (parents_in (values row) xs) path in (zs, rw (e, walk) w)

linked_of_path :
    (dag : Dag) (leader prev_leader : Certificate)
    → Descends dag
        (round_of prev_leader)
        (round_of leader - round_of prev_leader)
        leader
        prev_leader
    → linked leader prev_leader dag ≡ some true
unfolding linked same_certificate
linked_of_path dag leader prev_leader path =
    let (zs, w) =
      walk_of_path dag (round_of prev_leader) (round_of leader - round_of prev_leader) (leader ∷ [])
        path in
    let answered : linked leader prev_leader dag
        ≡ some (any (λ x. same_certificate x prev_leader) zs) =
      rw (w, linked) in
    let holds =
      (linked_iff_path dag leader prev_leader _ answered).1 (prev_leader, path, same-self) in
    answered ∙ ap some holds
  where
    same-self : same_certificate prev_leader prev_leader ≡ true
    same-self = ground arith

-- Once f + 1 of stake in the next row support an entry, `linked` finds a path to it from every
-- certificate two or more rows above it, as long as the certificates of the rows above the entry
-- cite a quorum of the row below their own; no row is missing on the way.
pub supported-linked :
    (c : Committee) (dag : Dag) (e : Entry) (n : ℕ) (x : Certificate)
    → Fits c
    → IsSupported c dag (round_of e.1) e
    → AllFounded c dag (round_of e.1)
    → Founded c dag (round_of e.1 + suc n) x
    → round_of x ≡ round_of e.1 + suc (suc n)
    → linked x e.1 dag ≡ some true
supported-linked c dag e n x fits s all f r = linked_of_path dag x e.1 (
    subst (λ k. Descends dag (round_of e.1) k x e.1) (omega arith)
      (supported-Descends c dag (round_of e.1) e n x fits s all f))
