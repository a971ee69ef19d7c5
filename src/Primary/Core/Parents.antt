-- ===== src/Primary/Core/Parents.antt =====
-- primary/src/core.rs, primary/src/synchronizer.rs: the parents that a header's processing finds.
use mathlib.Core.List.{Memᴰ}
use dag_bft_sigmod.Base.{
  none, some, subst, find, find_mem, Option-cases, List, [], ◌∷◌, ◌≡◌, arith, ◌==◌, ==_iff, nat_eq,
  inl, inr,
}
use dag_bft_sigmod.Primary.Errors.{Digest, DagResult, ok, err}
use dag_bft_sigmod.Primary.Messages.{Certificate}
use dag_bft_sigmod.Primary.Node.{Node, digest_key}
use dag_bft_sigmod.Primary.Synchronizer.{genesis_digests, find_parents}
use dag_bft_sigmod.Store.{Value}
use dag_bft_sigmod.Primary.Core.Counts.{DagResult-cases}

abbrev with_parent :
    Certificate
    → DagResult (List Digest × List Certificate)
    → DagResult (List Digest × List Certificate)
with_parent x (err e) = err e
with_parent x (ok (missing, xs)) = ok (missing, x ∷ xs)

module _ {S : Type 0} (node : Node S) where
  -- The certificate is the one of the digest: a genesis certificate, or the one in the store.
  pub data IsAtHand (store : S) (digest : Digest) (x : Certificate) : Type 0 where
    genesis_one :
        Memᴰ (digest, x) (genesis_digests node.crypto node.committee) → IsAtHand store digest x
    stored :
        (v : Value)
        → node.backend.read store (digest_key digest) ≡ ok (some v)
        → node.codec.deserialize_certificate v ≡ some x
        → IsAtHand store digest x

  -- The certificates of the digests, in their order.
  abbrev pub AllAtHand : S → List Digest → List Certificate → Type 0
  AllAtHand store [] [] = Unit
  AllAtHand store [] (x ∷ xs) = ⊥
  AllAtHand store (d ∷ ds) [] = ⊥
  AllAtHand store (d ∷ ds) (x ∷ xs) = IsAtHand store d x × AllAtHand store ds xs

  -- A certificate at hand goes before the later ones.
  AllAtHand-cons :
      (store : S) (d : Digest) (ds : List Digest) (x : Certificate) (parents : List Certificate)
      (rest : DagResult (List Digest × List Certificate))
      → IsAtHand store d x
      → with_parent x rest ≡ ok ([], parents)
      → ((xs : List Certificate) → rest ≡ ok ([], xs) → AllAtHand store ds xs)
      → AllAtHand store (d ∷ ds) parents
  AllAtHand-cons store d ds x parents (err f) here e later = absurd (cc)
  AllAtHand-cons store d ds x parents (ok (missing, xs)) here e later =
      let same : x ∷ xs ≡ parents = ground arith in
      subst (AllAtHand store (d ∷ ds)) same (here, later xs (ground arith))

  pub find_parents-AllAtHand :
      (store : S) (ds : List Digest) (parents : List Certificate)
      → find_parents node store ds ≡ ok ([], parents)
      → AllAtHand store ds parents
  unfolding find_parents
  find_parents-AllAtHand store [] parents e =
      let same : [] ≡ parents = ground arith in subst (AllAtHand store []) same tt
  find_parents-AllAtHand store (d ∷ ds) parents e =
      let ih = find_parents-AllAtHand store ds in
      let roots = genesis_digests node.crypto node.committee in
      elim (Option-cases (find (λ (g : Digest × Certificate). g.0 == d) roots)) [
        | inr ((d', x), g) ↦
            let (m, same) = find_mem (λ (g : Digest × Certificate). g.0 == d) roots g in
            let here : Memᴰ (d, x) roots =
              subst (λ k. Memᴰ (k, x) roots) ((==_iff d' d).0 same) m in
            AllAtHand-cons store d ds x parents (find_parents node store ds) (genesis_one here)
              (ground arith) ih
        | inl n ↦ elim (DagResult-cases (node.backend.read store (digest_key d))) [
          | inl (f, r) ↦ absurd (ground arith)
          | inr (none, r) ↦ elim (DagResult-cases (find_parents node store ds)) [
            | inl (f, q) ↦ absurd (ground arith)
            | inr ((missing, xs), q) ↦ absurd (ground arith)
          ]
          | inr (some v, r) ↦ elim (Option-cases (node.codec.deserialize_certificate v)) [
            | inl o ↦ absurd (ground arith)
            | inr (x, o) ↦
                AllAtHand-cons store d ds x parents (find_parents node store ds) (stored v r o)
                  (ground arith) ih
          ]
        ]
      ]
