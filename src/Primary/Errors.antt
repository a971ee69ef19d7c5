-- ===== src/Primary/Errors.antt =====
-- primary/src/error.rs: the errors of the DAG, and the results that carry them.
use dag_bft_sigmod.Base.{ℕ, Bool, true, false}

abbrev pub Digest : Type 0
Digest = ℕ

abbrev pub Round : Type 0
Round = ℕ

pub data DagError : Type 0 where
  invalid_signature : DagError
  store_error : DagError
  serialization_error : DagError
  invalid_header_id : DagError
  malformed_header : Digest → DagError
  unknown_authority : ℕ → DagError
  authority_reuse : ℕ → DagError
  unexpected_vote : Digest → DagError
  certificate_requires_quorum : DagError
  header_requires_quorum : Digest → DagError
  too_old : Digest → Round → DagError

pub data DagResult (A : Type 0) : Type 0 where
  ok : A → DagResult A
  err : DagError → DagResult A

infixl 5 ◌>>=◌ ◌>>◌
abbrev pub ◌>>=◌ : {A B : Type 0} → DagResult A → (A → DagResult B) → DagResult B
ok a >>= f = f a
err e >>= f = err e

abbrev pub ◌>>◌ : {B : Type 0} → DagResult (Unit {0}) → DagResult B → DagResult B
m >> k = m >>= λ _. k

-- The macro `ensure!`.
abbrev pub ensure : Bool → DagError → DagResult (Unit {0})
ensure true e = ok tt
ensure false e = err e
