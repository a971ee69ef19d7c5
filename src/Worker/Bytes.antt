-- ===== src/Worker/Bytes.antt =====
-- Slices of byte strings and big-endian numbers, as the parsers of worker/src use them.
use dag_bft_sigmod.Base.{
  ℕ, zero, suc, ◌+◌, ◌-◌, ◌*◌, ◌/◌, ◌%◌, ◌<◌, ◌≤◌, List, [], ◌∷◌, ◌++◌, ◌≡◌, refl, ap, arith,
  length, length-append,
}
use dag_bft_sigmod.Primary.Messages.{be_bytes}

unfoldable pub take {ℓ} : {A : Type ℓ} → ℕ → List A → List A
take zero xs = []
take (suc n) [] = []
take (suc n) (x ∷ xs) = x ∷ take n xs

unfoldable pub drop {ℓ} : {A : Type ℓ} → ℕ → List A → List A
drop zero xs = xs
drop (suc n) [] = []
drop (suc n) (x ∷ xs) = drop n xs

-- `bytes[start..end]`, where the length is checked before.
abbrev pub slice : ℕ → ℕ → List ℕ → List ℕ
slice start end bytes = take (end - start) (drop start bytes)

unfoldable pub from_be_onto : ℕ → List ℕ → ℕ
from_be_onto x [] = x
from_be_onto x (b ∷ bs) = from_be_onto (x * 256 + b) bs

-- `u64::from_be_bytes`.
abbrev pub from_be_bytes : List ℕ → ℕ
from_be_bytes = from_be_onto 0

-- The numbers of that many bytes.
unfoldable pub pow256 : ℕ → ℕ
pow256 zero = 1
pow256 (suc n) = 256 * pow256 n

pub length-be_bytes : (n x : ℕ) → length (be_bytes n x) ≡ n
unfolding be_bytes
length-be_bytes zero x = refl
length-be_bytes (suc n) x =
    ground (arith, length-be_bytes n (x / 256), length-append (be_bytes n (x / 256)) (x % 256 ∷ []))

from_be_onto-snoc :
    (x : ℕ) (bs : List ℕ) (b : ℕ) → from_be_onto x (bs ++ b ∷ []) ≡ from_be_onto x bs * 256 + b
unfolding from_be_onto
from_be_onto-snoc x [] b = refl
from_be_onto-snoc x (c ∷ bs) b = from_be_onto-snoc (x * 256 + c) bs b

pub from_be_bytes-be_bytes : (n x : ℕ) → x < pow256 n → from_be_bytes (be_bytes n x) ≡ x
unfolding be_bytes pow256 from_be_onto
from_be_bytes-be_bytes zero x h = omega arith
from_be_bytes-be_bytes (suc n) x h = omega (
  arith,
  from_be_bytes-be_bytes n (x / 256) (omega arith),
  from_be_onto-snoc 0 (be_bytes n (x / 256)) (x % 256),
)

module _ {ℓ} {A : Type ℓ} where
  pub take-append : (n : ℕ) (xs ys : List A) → length xs ≡ n → take n (xs ++ ys) ≡ xs
  unfolding take
  take-append zero [] ys e = refl
  take-append (suc n) [] ys e = absurd (omega arith)
  take-append zero (x ∷ xs) ys e = absurd (omega arith)
  take-append (suc n) (x ∷ xs) ys e = ground (arith, take-append n xs ys)

  pub drop-append : (n : ℕ) (xs ys : List A) → length xs ≡ n → drop n (xs ++ ys) ≡ ys
  unfolding drop
  drop-append zero [] ys e = refl
  drop-append (suc n) [] ys e = absurd (omega arith)
  drop-append zero (x ∷ xs) ys e = absurd (omega arith)
  drop-append (suc n) (x ∷ xs) ys e = ground (arith, drop-append n xs ys)

  -- A slice at the start of a longer slice.
  pub take-take : (n m : ℕ) (xs : List A) → n ≤ m → take n (take m xs) ≡ take n xs
  unfolding take
  take-take zero m xs le = refl
  take-take (suc n) zero xs le = absurd (omega arith)
  take-take (suc n) (suc m) [] le = refl
  take-take (suc n) (suc m) (x ∷ xs) le = ground (arith, take-take n m xs)

  take_nil : (n : ℕ) → take {A = A} n [] ≡ []
  unfolding take
  take_nil zero = refl
  take_nil (suc n) = refl

  pub drop-take : (n m p : ℕ) (xs : List A) → p ≡ n + m → drop n (take p xs) ≡ take m (drop n xs)
  unfolding take drop
  drop-take zero m p xs e = ap (λ i. take i xs) (omega arith)
  drop-take (suc n) m zero xs e = absurd (omega arith)
  drop-take (suc n) m (suc p) [] e = ground (arith, take_nil m)
  drop-take (suc n) m (suc p) (x ∷ xs) e = drop-take n m p xs (omega arith)

  pub drop-drop : (n m q : ℕ) (xs : List A) → q ≡ m + n → drop n (drop m xs) ≡ drop q xs
  unfolding drop
  drop-drop n zero q xs e = ap (λ i. drop i xs) (omega arith)
  drop-drop n (suc m) zero xs e = absurd (omega arith)
  drop-drop zero (suc m) (suc q) [] e = refl
  drop-drop (suc n) (suc m) (suc q) [] e = refl
  drop-drop n (suc m) (suc q) (x ∷ xs) e = drop-drop n m q xs (omega arith)

  pub length-take : (n : ℕ) (xs : List A) → n ≤ length xs → length (take n xs) ≡ n
  unfolding take
  length-take zero xs le = refl
  length-take (suc n) [] le = absurd (omega arith)
  length-take (suc n) (x ∷ xs) le = ground (arith, length-take n xs)

  pub length-drop : (n : ℕ) (xs : List A) → length (drop n xs) ≡ length xs - n
  unfolding drop
  length-drop zero xs = omega arith
  length-drop (suc n) [] = omega arith
  length-drop (suc n) (x ∷ xs) = omega (arith, length-drop n xs)
