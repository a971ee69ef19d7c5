-- ===== src/Node/Executions.antt =====
-- node/src/main.rs: which batches are executed.
use dag_bft_sigmod.Base.{
  ℕ, suc, ◌+◌, Option, none, some, List, [], ◌∷◌, ◌++◌, ◌≡◌, inl, inr, refl, sym, ap, ◌∙◌, arith,
  length, if◌then◌else◌, ◌==◌, ==_iff, nat_eq, Option-cases, Bool-cases,
}
use dag_bft_sigmod.Base.Maps.{Map, lookup, insert, get_or}
use dag_bft_sigmod.Config.{SocketAddr, WorkerId}
use dag_bft_sigmod.Primary.Errors.{Digest}
use dag_bft_sigmod.Primary.Messages.{round_of}
use dag_bft_sigmod.Node.Numbers.{numbers, range, analyze-Numbered}
use dag_bft_sigmod.Primary.Migrations.{MigrationNotice, migration_chunk_size, chunks_of}
use dag_bft_sigmod.Node.{
  ConsensusOutput, certificate, migrations, NodeOutput, committed_batches, execute,
  migration_notices, group_by_worker, execute_digests, dispatch_batches, notify_worker,
  dispatch_notices, group_by_account, analyze_output, analyze,
}

-- How often the batch is executed.
unfoldable pub executions : Digest → List NodeOutput → ℕ
executions d [] = 0
executions d (committed_batches a r ds ∷ out) = executions d out
executions d (execute a x w n ∷ out) =
    let rest = executions d out in if x == d then suc rest else rest
executions d (migration_notices a ns ∷ out) = executions d out

-- How often a payload has the batch with one of our workers.
unfoldable pub entries : Digest → Map WorkerId SocketAddr → Map Digest WorkerId → ℕ
unfolding lookup
entries d ours [] = 0
entries d ours ((x, w) ∷ payload) =
    let rest = entries d ours payload in
    elim (lookup w ours) [ none ↦ rest | some a ↦ if x == d then suc rest else rest ]

-- How often the certificates have it.
unfoldable pub cited : Digest → Map WorkerId SocketAddr → List ConsensusOutput → ℕ
unfolding entries
cited d ours [] = 0
cited d ours (certificate x ∷ outputs) = entries d ours x.header.payload + cited d ours outputs
cited d ours (migrations ns ∷ outputs) = cited d ours outputs

unfoldable count : Digest → List Digest → ℕ
count d [] = 0
count d (x ∷ ds) = let rest = count d ds in if x == d then suc rest else rest

-- The batches that a worker of ours is given.
unfoldable weight : Digest → Option SocketAddr → List Digest → ℕ
unfolding count
weight d none ds = 0
weight d (some a) ds = count d ds

unfoldable grouped : Digest → Map WorkerId SocketAddr → Map WorkerId (List Digest) → ℕ
unfolding weight lookup
grouped d ours [] = 0
grouped d ours ((w, ds) ∷ per_worker) = weight d (lookup w ours) ds + grouped d ours per_worker

executions-append :
    (d : Digest) (xs ys : List NodeOutput)
    → executions d (xs ++ ys) ≡ executions d xs + executions d ys
unfolding executions
executions-append d [] ys = omega arith
executions-append d (committed_batches a r ds ∷ xs) ys = executions-append d xs ys
executions-append d (execute a x w n ∷ xs) ys = ground (arith, executions-append d xs ys)
executions-append d (migration_notices a ns ∷ xs) ys = executions-append d xs ys

count-append : (d : Digest) (xs ys : List Digest) → count d (xs ++ ys) ≡ count d xs + count d ys
unfolding count
count-append d [] ys = omega arith
count-append d (x ∷ xs) ys = ground (arith, count-append d xs ys)

weight-append :
    (d : Digest) (o : Option SocketAddr) (xs ys : List Digest)
    → weight d o (xs ++ ys) ≡ weight d o xs + weight d o ys
unfolding weight
weight-append d none xs ys = omega arith
weight-append d (some a) xs ys = count-append d xs ys

weight-empty : (d : Digest) (o : Option SocketAddr) → weight d o [] ≡ 0
unfolding weight count
weight-empty d none = refl
weight-empty d (some a) = refl

grouped-insert :
    (d : Digest) (ours : Map WorkerId SocketAddr) (w : WorkerId) (ds : List Digest)
    (per_worker : Map WorkerId (List Digest))
    → grouped d ours (insert w ds per_worker)
        + weight d (lookup w ours) (get_or [] (lookup w per_worker))
      ≡ grouped d ours per_worker + weight d (lookup w ours) ds
unfolding grouped insert
grouped-insert d ours w ds [] = omega (arith, weight-empty d (lookup w ours))
grouped-insert d ours w ds ((j, x) ∷ per_worker) = elim (Bool-cases (j == w)) [
  | inl e ↦
      let same : weight d (lookup j ours) x ≡ weight d (lookup w ours) x =
        ap (λ i. weight d (lookup i ours) x) ((==_iff j w).0 e) in
      rw (lookup, e) (omega (arith, same))
  | inr e ↦ rw (lookup, e) (omega (arith, grouped-insert d ours w ds per_worker))
]

entries-cons :
    (d x : Digest) (w : WorkerId) (ours : Map WorkerId SocketAddr) (payload : Map Digest WorkerId)
    → entries d ours ((x, w) ∷ payload) ≡ weight d (lookup w ours) (x ∷ []) + entries d ours payload
unfolding entries weight count
entries-cons d x w ours payload = elim (Option-cases (lookup w ours)) [
  | inl n ↦ rw (entries, n) (omega arith)
  | inr (a, l) ↦ ground arith
]

grouped-group :
    (d : Digest) (ours : Map WorkerId SocketAddr) (payload : Map Digest WorkerId)
    (per_worker : Map WorkerId (List Digest))
    → grouped d ours (group_by_worker payload per_worker)
      ≡ grouped d ours per_worker + entries d ours payload
unfolding group_by_worker entries
grouped-group d ours [] per_worker = omega arith
grouped-group d ours ((x, w) ∷ payload) per_worker =
    let before = get_or [] (lookup w per_worker) in
    let rest = grouped-group d ours payload (insert w (before ++ (x ∷ [])) per_worker) in
    let added = grouped-insert d ours w (before ++ (x ∷ [])) per_worker in
    let split = weight-append d (lookup w ours) before (x ∷ []) in
    omega (arith, rest, added, split, entries-cons d x w ours payload)

execute_digests-executions :
    (d : Digest) (a : SocketAddr) (w : WorkerId) (ds : List Digest) (first : ℕ)
    → executions d (execute_digests a w ds first).0 ≡ count d ds
unfolding execute_digests executions count
execute_digests-executions d a w [] first = refl
execute_digests-executions d a w (x ∷ ds) first =
    ground (arith, execute_digests-executions d a w ds (suc first))

dispatch_batches-executions :
    (d : Digest) (ours : Map WorkerId SocketAddr) (round : ℕ)
    (per_worker : Map WorkerId (List Digest)) (first : ℕ)
    → executions d (dispatch_batches ours round per_worker first).0 ≡ grouped d ours per_worker
unfolding dispatch_batches executions grouped weight
dispatch_batches-executions d ours round [] first = refl
dispatch_batches-executions d ours round ((w, ds) ∷ per_worker) first =
    elim (Option-cases (lookup w ours)) [
      | inl n ↦
          rw (dispatch_batches, n)
            (omega (arith, dispatch_batches-executions d ours round per_worker first))
      | inr (a, l) ↦
          let (sent, next) = execute_digests a w ds first in
          rw (dispatch_batches, l)
            (omega (
              arith,
              executions-append d sent (dispatch_batches ours round per_worker next).0,
              execute_digests-executions d a w ds first,
              dispatch_batches-executions d ours round per_worker next,
            ))
    ]

notify_worker-executions :
    (d : Digest) (a : SocketAddr) (chunks : List (List MigrationNotice))
    → executions d (notify_worker a chunks) ≡ 0
unfolding notify_worker executions
notify_worker-executions d a [] = refl
notify_worker-executions d a (c ∷ chunks) = notify_worker-executions d a chunks

dispatch_notices-executions :
    (d : Digest) (ours : Map WorkerId SocketAddr) (per_worker : Map WorkerId (List MigrationNotice))
    → executions d (dispatch_notices ours per_worker) ≡ 0
unfolding dispatch_notices executions
dispatch_notices-executions d ours [] = refl
dispatch_notices-executions d ours ((w, ns) ∷ per_worker) =
    let rest = dispatch_notices-executions d ours per_worker in
    let chunks = chunks_of (length ns) migration_chunk_size ns in
    elim (Option-cases (lookup w ours)) [
      | inl n ↦ rw (executions, dispatch_notices, n) rest
      | inr (a, l) ↦
          rw (dispatch_notices, l)
            (omega (
              arith,
              rest,
              executions-append d (notify_worker a chunks) (dispatch_notices ours per_worker),
              notify_worker-executions d a chunks,
            ))
    ]

analyze_output-executions :
    (d : Digest) (ours : Map WorkerId SocketAddr) (output : ConsensusOutput) (first last : ℕ)
    (out : List NodeOutput)
    → analyze_output ours output first ≡ some (out, last)
    → executions d out ≡ cited d ours (output ∷ [])
unfolding analyze_output cited grouped
analyze_output-executions d ours (certificate x) first last out h =
    let per_worker = group_by_worker x.header.payload [] in
    let same : (dispatch_batches ours (round_of x) per_worker first).0 ≡ out = ground arith in
    omega (
      arith,
      ap (executions d) same,
      dispatch_batches-executions d ours (round_of x) per_worker first,
      grouped-group d ours x.header.payload [],
    )
analyze_output-executions d [] (migrations ns) first last out h = absurd (ground arith)
analyze_output-executions d (w ∷ ours) (migrations ns) first last out h =
    let per_worker = group_by_account (length (w ∷ ours)) ns [] in
    let same : dispatch_notices (w ∷ ours) per_worker ≡ out = ground arith in
    ap (executions d) (sym same) ∙ dispatch_notices-executions d (w ∷ ours) per_worker

cited-cons :
    (d : Digest) (ours : Map WorkerId SocketAddr) (output : ConsensusOutput)
    (outputs : List ConsensusOutput)
    → cited d ours (output ∷ outputs) ≡ cited d ours (output ∷ []) + cited d ours outputs
unfolding cited
cited-cons d ours (certificate x) outputs = omega arith
cited-cons d ours (migrations ns) outputs = omega arith

analyze-executions :
    (d : Digest) (ours : Map WorkerId SocketAddr) (outputs : List ConsensusOutput) (first last : ℕ)
    (out : List NodeOutput)
    → analyze ours outputs first ≡ some (out, last)
    → executions d out ≡ cited d ours outputs
unfolding analyze executions cited
analyze-executions d ours [] first last out h =
    let same : [] ≡ out = ground arith in ap (executions d) (sym same)
analyze-executions d ours (output ∷ outputs) first last out h =
    elim (Option-cases (analyze_output ours output first)) [
      | inl n ↦ absurd (ground arith)
      | inr ((sent, next), e) ↦ elim (Option-cases (analyze ours outputs next)) [
        | inl n ↦ absurd (ground arith)
        | inr ((later, end), f) ↦
            let same : sent ++ later ≡ out = ground arith in
            omega (
              arith,
              ap (executions d) same,
              executions-append d sent later,
              analyze_output-executions d ours output first next sent e,
              analyze-executions d ours outputs next end later f,
              cited-cons d ours output outputs,
            )
      ]
    ]

-- Whatever the consensus puts out, the executions that the node sends to its workers carry consecutive
-- sequence numbers from the first one on, so that none is left out and none is given twice; and each
-- batch is executed exactly as often as the payloads of the certificates have it with a worker of ours.
pub analyze_lem :
    (d : Digest) (ours : Map WorkerId SocketAddr) (outputs : List ConsensusOutput) (first last : ℕ)
    (out : List NodeOutput)
    → analyze ours outputs first ≡ some (out, last)
    → ((n : ℕ) × (last ≡ first + n) × (numbers out ≡ range first n))
      × (executions d out ≡ cited d ours outputs)
analyze_lem d ours outputs first last out h = (
  analyze-Numbered ours outputs first last out h,
  analyze-executions d ours outputs first last out h,
)
