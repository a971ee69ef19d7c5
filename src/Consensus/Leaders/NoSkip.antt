-- ===== src/Consensus/Leaders/NoSkip.antt =====
-- consensus/src/lib.rs: `order_leaders` passes over no leader that could have been committed.
use mathlib.Core.List.{Memᴰ}
use mathlib.Core.List.Memᴰ
use dag_bft_sigmod.Base.{
  ℕ, zero, suc, ◌+◌, ◌-◌, ◌*◌, ◌/◌, ◌%◌, ◌≤◌, ◌<◌, ◌≡◌, refl, ◌∙◌, ap, inl, inr, Bool, true, false,
  some, List, [], ◌∷◌, ◌++◌, arith, nat_eq, Bool-cases, Option-cases, subst, get_elem?, any, ◌==◌,
}
use dag_bft_sigmod.Base.Maps.{lookup, values, keys}
use dag_bft_sigmod.Config.{PublicKey, Committee, size}
use dag_bft_sigmod.Config.Thresholds.{Fits}
use dag_bft_sigmod.Primary.Errors.{Digest, Round}
use dag_bft_sigmod.Primary.Messages.{Certificate, round_of, same_certificate}
use dag_bft_sigmod.Consensus.{Dag, Row, State, leader, sort_keys}
use dag_bft_sigmod.Consensus.Linked.{walk, linked, parents_in}
use dag_bft_sigmod.Consensus.Linked.Support.{
  Entry, IsSupported, AllFounded, Founded, supported-linked,
}
use dag_bft_sigmod.Consensus.Leaders.{past_leaders, order_leaders, steps_of_two}

-- The certificate stands in the row of its round.
pub record InDag (dag : Dag) (x : Certificate) : Type 0 where
  pub row : Row
  pub present : lookup (round_of x) dag ≡ some row
  pub digest : Digest
  pub entry : Memᴰ (digest, x) (values row)

-- Each row holds certificates of its own round.
abbrev pub RowsByRound : Dag → Type 0
RowsByRound dag =
    (r : Round) (row : Row)
    → lookup r dag ≡ some row
    → (e : Entry) → Memᴰ e (values row)
    → round_of e.1 ≡ r

-- No row is missing between the two rounds.
abbrev pub RowsPresent : Dag → Round → Round → Type 0
RowsPresent dag low high =
    (r : Round) → low ≤ r → r < high → (row : Row) × (lookup r dag ≡ some row)

lookup_mem :
    (name : PublicKey) (row : Row) {e : Entry} → lookup name row ≡ some e → Memᴰ e (values row)
unfolding lookup
lookup_mem name [] h = absurd (cc)
lookup_mem name ((n, e') ∷ row) {e} h = elim (Bool-cases (n == name)) [
  | inl t ↦ Memᴰ.head (ground arith)
  | inr f ↦ Memᴰ.tail (lookup_mem name row (rw f at h))
]

leader-InDag :
    (c : Committee) (r : Round) (dag : Dag) (e : Entry)
    → RowsByRound dag
    → leader c r dag ≡ some e
    → InDag dag e.1 × (round_of e.1 ≡ r)
unfolding leader
leader-InDag c r dag e by h =
    elim (Option-cases (get_elem? (sort_keys (keys c.authorities)) (r % size c))) [
      | inl a ↦ absurd (cc)
      | inr (name, a) ↦ elim (Option-cases (lookup r dag)) [
        | inl b ↦ absurd (cc)
        | inr (row, b) ↦
            let found : lookup name row ≡ some e = ground arith in
            let m = lookup_mem name row found in
            let same : round_of e.1 ≡ r = by r row b e m in
            (
              record {
                row = row;
                present = ap (λ t. lookup t dag) same ∙ b;
                digest = e.0;
                entry = m;
              },
              same,
            )
      ]
    ]

walk_total :
    (dag : Dag) (n : ℕ) (base : Round) (xs : List Certificate)
    → RowsPresent dag base (base + n)
    → (zs : List Certificate) × (walk dag n base xs ≡ some zs)
unfolding walk
walk_total dag zero base xs p = (xs, refl)
walk_total dag (suc n) base xs p =
    let (row, e) = p (base + n) (omega arith) (omega arith) in
    let (zs, w) =
      walk_total dag n base (parents_in (values row) xs) (λ r a b. p r a (omega arith)) in
    (zs, rw (e, walk) w)

linked_total :
    (dag : Dag) (x y : Certificate)
    → RowsPresent dag (round_of y) (round_of x)
    → (b : Bool) × (linked x y dag ≡ some b)
unfolding linked
linked_total dag x y p =
    let (zs, w) =
      walk_total dag (round_of x - round_of y) (round_of y) (x ∷ [])
        (λ r a b. p r a (omega arith)) in
    (any (λ z. same_certificate z y) zs, rw (w, linked))

-- What the loop knows of the dag, down to the round `bottom`.
pub record IsSound (c : Committee) (dag : Dag) (bottom : Round) : Type 0 where
  pub fits : Fits c
  pub by_round : RowsByRound dag
  pub founded : (r : Round) → bottom ≤ r → AllFounded c dag r

InDag-Founded :
    (c : Committee) (dag : Dag) (q n : ℕ) (x : Certificate)
    → AllFounded c dag q
    → InDag dag x
    → round_of x ≡ q + n + 1
    → Founded c dag (q + n) x
InDag-Founded c dag q n x all i e =
    all n i.row (subst (λ r. lookup r dag ≡ some i.row) e i.present) (i.digest, x) i.entry

-- What has been pushed stays.
past_leaders_keeps :
    (c : Committee) (dag : Dag) (n : ℕ) (r : Round) (x : Certificate) (acc ls : List Certificate)
    {y : Certificate}
    → past_leaders c dag n r x acc ≡ some ls
    → Memᴰ y acc
    → Memᴰ y ls
unfolding past_leaders
past_leaders_keeps c dag zero r x acc ls {y} h m = subst (Memᴰ y) (ground arith) m
past_leaders_keeps c dag (suc n) r x acc ls h m = elim (Option-cases (leader c r dag)) [
  | inl e ↦ past_leaders_keeps c dag n (r - 2) x acc ls (rw (e, past_leaders) at h) m
  | inr ((d, p), e) ↦ elim (Option-cases (linked x p dag)) [
    | inl g ↦ absurd (ground arith)
    | inr (true, g) ↦
        past_leaders_keeps c dag n (r - 2) p (acc ++ p ∷ []) ls (rw (e, g, past_leaders) at h)
          (Memᴰ.append_left _ m)
    | inr (false, g) ↦ past_leaders_keeps c dag n (r - 2) x acc ls (rw (e, g, past_leaders) at h) m
  ]
]

-- With no row missing the loop returns.
past_leaders_total :
    (c : Committee) (dag : Dag) (n : ℕ) (r bottom : Round) (x : Certificate)
    (acc : List Certificate)
    → RowsByRound dag
    → RowsPresent dag bottom (round_of x)
    → 2 ≤ bottom
    → bottom + 2 * n ≤ r + 2
    → r + 2 ≤ round_of x
    → (ls : List Certificate) × (past_leaders c dag n r x acc ≡ some ls)
unfolding past_leaders
past_leaders_total c dag zero r bottom x acc by p two b t = (acc, refl)
past_leaders_total c dag (suc n) r bottom x acc by p two b t =
    elim (Option-cases (leader c r dag)) [
      | inl e ↦
          let (ls, h) =
            past_leaders_total c dag n (r - 2) bottom x acc by p two (omega arith) (omega arith) in
          (ls, rw (e, past_leaders) h)
      | inr ((d, y), e) ↦
          let (i, at) = leader-InDag c r dag (d, y) by e in
          let (l, g) = linked_total dag x y (λ q a b'. p q (omega arith) b') in
          elim (Bool-cases l) [
            | inl yes_path ↦
                let (ls, h) =
                  past_leaders_total c dag n (r - 2) bottom y (acc ++ y ∷ []) by
                    (λ q a b'. p q a (omega arith)) two (omega arith) (omega arith) in
                (ls, rw (e, g ∙ ap some yes_path, past_leaders) h)
            | inr no_path ↦
                let (ls, h) =
                  past_leaders_total c dag n (r - 2) bottom x acc by p two (omega arith)
                    (omega arith) in
                (ls, rw (e, g ∙ ap some no_path, past_leaders) h)
          ]
    ]

-- The loop pushes the supported leader `i` steps on, whatever it pushes before.
past_leaders-supported :
    (c : Committee) (dag : Dag) (i n : ℕ) (r bottom : Round) (x : Certificate)
    (acc ls : List Certificate) (e : Entry)
    → IsSound c dag bottom
    → InDag dag x
    → 2 ≤ bottom
    → bottom ≤ round_of e.1
    → r + 2 ≤ round_of x
    → r ≡ round_of e.1 + 2 * i
    → i < n
    → leader c (round_of e.1) dag ≡ some e
    → IsSupported c dag (round_of e.1) e
    → past_leaders c dag n r x acc ≡ some ls
    → Memᴰ e.1 ls
unfolding past_leaders
past_leaders-supported c dag i zero r bottom x acc ls e k d two low t at lt le s h =
    absurd (omega arith)
past_leaders-supported c dag zero (suc n) r bottom x acc ls e k d two low t at lt le s h =
    let here : leader c r dag ≡ some e = ap (λ q. leader c q dag) (omega arith) ∙ le in
    let founded : Founded c dag (round_of e.1 + suc (round_of x - round_of e.1 - 2)) x =
      InDag-Founded c dag (round_of e.1) _ x (k.founded (round_of e.1) low) d (omega arith) in
    let path : linked x e.1 dag ≡ some true =
      supported-linked c dag e (round_of x - round_of e.1 - 2) x k.fits s
        (k.founded (round_of e.1) low) founded (omega arith) in
    past_leaders_keeps c dag n (r - 2) e.1 (acc ++ e.1 ∷ []) ls (rw (here, path, past_leaders) at h)
      (Memᴰ.append_right acc (Memᴰ.head refl))
past_leaders-supported c dag (suc i) (suc n) r bottom x acc ls e k d two low t at lt le s h =
    elim (Option-cases (leader c r dag)) [
      | inl g ↦
          past_leaders-supported c dag i n (r - 2) bottom x acc ls e k d two low (omega arith)
            (omega arith) (omega arith) le s (rw (g, past_leaders) at h)
      | inr ((dy, y), g) ↦ elim (Option-cases (linked x y dag)) [
        | inl l ↦ absurd (ground arith)
        | inr (true, l) ↦
            let (iy, at_r) = leader-InDag c r dag (dy, y) k.by_round g in
            past_leaders-supported c dag i n (r - 2) bottom y (acc ++ y ∷ []) ls e k iy two low
              (omega arith) (omega arith) (omega arith) le s (rw (g, l, past_leaders) at h)
        | inr (false, l) ↦
            past_leaders-supported c dag i n (r - 2) bottom x acc ls e k d two low (omega arith)
              (omega arith) (omega arith) le s (rw (g, l, past_leaders) at h)
      ]
    ]

-- A past leader with f + 1 of support, at an even distance below the newest leader and above the
-- last committed round, is among the leaders that `order_leaders` returns, and it does return:
-- in a dag whose rows are complete, hold certificates of their own round, and are founded on quorums.
pub supported_leader_ordered :
    (c : Committee) (s : State) (newest : Certificate) (e : Entry) (i : ℕ)
    → IsSound c s.dag (s.last_committed_round + 2)
    → RowsPresent s.dag (s.last_committed_round + 2) (round_of newest)
    → InDag s.dag newest
    → round_of newest ≡ round_of e.1 + 2 * i + 2
    → s.last_committed_round + 2 ≤ round_of e.1
    → leader c (round_of e.1) s.dag ≡ some e
    → IsSupported c s.dag (round_of e.1) e
    → (ls : List Certificate) × (order_leaders c newest s ≡ some ls) × Memᴰ e.1 ls
unfolding order_leaders
supported_leader_ordered c s newest e i k p d at low le sup =
    let bottom = s.last_committed_round + 2 in
    let top = round_of newest - 2 in
    let n = (top - bottom) / 2 + 1 in
    let enough : steps_of_two bottom top ≡ n = ground arith in
    let (ls, h) =
      past_leaders_total c s.dag n top bottom newest (newest ∷ []) k.by_round p (omega arith)
        (omega arith) (omega arith) in
    (
      ls,
      ap (λ m. past_leaders c s.dag m top newest (newest ∷ [])) enough ∙ h,
      past_leaders-supported c s.dag i n top bottom newest (newest ∷ []) ls e k d (omega arith) low
          (omega arith) (omega arith) (omega arith) le sup h,
    )
