-- ===== src/Consensus/Elected.antt =====
-- consensus/src/lib.rs: whose turn it is to lead a round.
use dag_bft_sigmod.Base.{
  ℕ, zero, suc, ◌+◌, ◌%◌, ◌<◌, ◌||◌, true, false, some, List, [], ◌∷◌, ◌≡◌, refl, subst, inl, inr,
  arith, All, All_mem, if◌then◌else◌, ltb, leb, ◌==◌, ==_iff, nat_eq, contains, contains_mem,
  Distinct, get_elem?, Bool-cases, Option-cases,
}
use dag_bft_sigmod.Base.Maps.{keys, lookup}
use dag_bft_sigmod.Config.{PublicKey, Committee, size}
use dag_bft_sigmod.Primary.Errors.{Digest, Round}
use dag_bft_sigmod.Primary.Messages.{Certificate}
use dag_bft_sigmod.Consensus.{Row, Dag, insert_key, sort_keys, leader}

-- How many of the keys are smaller.
unfoldable pub smaller : ℕ → List ℕ → ℕ
smaller k [] = 0
smaller k (j ∷ js) = (if ltb j k then 1 else 0) + smaller k js

abbrev Ascending : List ℕ → Type 0
Ascending [] = Unit
Ascending (x ∷ xs) = All (λ y. x < y) xs × Ascending xs

smaller-insert_key :
    (k j : ℕ) (js : List ℕ)
    → smaller k (insert_key j js) ≡ (if ltb j k then 1 else 0) + smaller k js
unfolding smaller insert_key
smaller-insert_key k j [] = refl
smaller-insert_key k j (i ∷ js) = ground (arith, smaller-insert_key k j js)

smaller-sort_keys : (k : ℕ) (ks : List ℕ) → smaller k (sort_keys ks) ≡ smaller k ks
unfolding smaller sort_keys
smaller-sort_keys k [] = refl
smaller-sort_keys k (j ∷ ks) =
    ground (arith, smaller-insert_key k j (sort_keys ks), smaller-sort_keys k ks)

contains-insert_key :
    (k j : ℕ) (js : List ℕ) → contains (insert_key j js) k ≡ (j == k || contains js k)
unfolding insert_key contains
contains-insert_key k j [] = refl
contains-insert_key k j (i ∷ js) = ground (arith, contains-insert_key k j js)

contains-sort_keys : (k : ℕ) (ks : List ℕ) → contains (sort_keys ks) k ≡ contains ks k
unfolding sort_keys contains
contains-sort_keys k [] = refl
contains-sort_keys k (j ∷ ks) =
    ground (arith, contains-insert_key k j (sort_keys ks), contains-sort_keys k ks)

All-above : (x y : ℕ) (js : List ℕ) → x < y → All (λ z. y < z) js → All (λ z. x < z) js
All-above x y [] l h = tt
All-above x y (j ∷ js) l h = (omega arith, All-above x y js l h.1)

All-insert_key :
    (x k : ℕ) (js : List ℕ) → x < k → All (λ z. x < z) js → All (λ z. x < z) (insert_key k js)
unfolding insert_key
All-insert_key x k [] l h = (l, tt)
All-insert_key x k (j ∷ js) l h = ground (arith, All-insert_key x k js l h.1)

insert_key-Ascending :
    (k : ℕ) (js : List ℕ) → contains js k ≡ false → Ascending js → Ascending (insert_key k js)
unfolding insert_key contains
insert_key-Ascending k [] a h = (tt, tt)
insert_key-Ascending k (j ∷ js) a h = elim (Bool-cases (leb k j)) [
  | inl le ↦
      let below : k < j = ground (arith, ==_iff j k) in
      rw le ((below, All-above k j js below h.0), h)
  | inr above ↦
      rw above
        (All-insert_key j k js (ground arith) h.0, insert_key-Ascending k js (ground arith) h.1)
]

sort_keys-Ascending : (ks : List ℕ) → Distinct ks → Ascending (sort_keys ks)
unfolding sort_keys
sort_keys-Ascending [] d = tt
sort_keys-Ascending (k ∷ ks) d =
    insert_key-Ascending k (sort_keys ks) (ground (arith, contains-sort_keys k ks, d.0))
      (sort_keys-Ascending ks d.1)

smaller-none : (k : ℕ) (js : List ℕ) → All (λ z. k < z) js → smaller k js ≡ 0
unfolding smaller
smaller-none k [] h = refl
smaller-none k (j ∷ js) h = ground (arith, smaller-none k js h.1)

-- In ascending order, the place of a key is the number of smaller ones.
get_elem-smaller :
    (js : List ℕ) (i k : ℕ)
    → Ascending js
    → get_elem? js i ≡ some k
    → (smaller k js ≡ i) × (contains js k ≡ true)
unfolding get_elem? smaller contains
get_elem-smaller [] i k a h = absurd (cc)
get_elem-smaller (j ∷ js) zero k a h =
    let same : j ≡ k = ground arith in
    ground (arith, ==_iff j k, subst (λ x. smaller x js ≡ 0) same (smaller-none j js a.0))
get_elem-smaller (j ∷ js) (suc i) k a h =
    let (place, within) = get_elem-smaller js i k a.1 h in
    let above : j < k = All_mem (λ z. j < z) (contains_mem js k within) a.0 in
    ground (arith, place, within)

-- By its place in the order of the keys, it is the authority's turn in the round, and the dag has its
-- certificate of the round.
pub record IsElected (c : Committee) (dag : Dag) (r : Round) (digest : Digest) (x : Certificate)
    : Type 0 where
  pub name : PublicKey
  pub row : Row
  pub member : contains (keys c.authorities) name ≡ true
  pub turn : smaller name (keys c.authorities) ≡ r % size c
  pub present : lookup r dag ≡ some row
  pub certificate : lookup name row ≡ some (digest, x)

pub leader-IsElected :
    (c : Committee) (dag : Dag) (r : Round) (digest : Digest) (x : Certificate)
    → Distinct (keys c.authorities)
    → leader c r dag ≡ some (digest, x)
    → IsElected c dag r digest x
unfolding leader
leader-IsElected c dag r digest x d h =
    let names = keys c.authorities in
    elim (Option-cases (get_elem? (sort_keys names) (r % size c))) [
      | inl n ↦ absurd (ground arith)
      | inr (name, at) ↦ elim (Option-cases (lookup r dag)) [
        | inl n ↦ absurd (ground arith)
        | inr (row, p) ↦
            let (place, within) =
              get_elem-smaller (sort_keys names) (r % size c) name (sort_keys-Ascending names d)
                at in
            record {
              name = name;
              row = row;
              member = ground (arith, contains-sort_keys name names, within);
              turn = ground (arith, smaller-sort_keys name names, place);
              present = p;
              certificate = ground arith;
            }
      ]
    ]
