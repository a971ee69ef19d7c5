-- ===== src/Node/Numbers.antt =====
-- node/src/main.rs: the sequence numbers under which batches are executed.
use dag_bft_sigmod.Base.{
  ℕ, zero, suc, ◌+◌, some, List, [], ◌∷◌, ◌++◌, ◌≡◌, inl, inr, refl, sym, ap, subst, ◌∙◌, arith,
  length, nat_eq, Option-cases,
}
use dag_bft_sigmod.Base.Maps.{Map, lookup}
use dag_bft_sigmod.Config.{SocketAddr, WorkerId}
use dag_bft_sigmod.Primary.Errors.{Digest}
use dag_bft_sigmod.Primary.Messages.{round_of}
use dag_bft_sigmod.Primary.Migrations.{MigrationNotice, migration_chunk_size, chunks_of}
use dag_bft_sigmod.Node.{
  ConsensusOutput, certificate, migrations, NodeOutput, committed_batches, execute,
  migration_notices, group_by_worker, execute_digests, dispatch_batches, notify_worker,
  dispatch_notices, group_by_account, analyze_output, analyze,
}

-- The sequence numbers of the executions, in the order of the messages.
unfoldable pub numbers : List NodeOutput → List ℕ
numbers [] = []
numbers (committed_batches a r ds ∷ out) = numbers out
numbers (execute a d w n ∷ out) = n ∷ numbers out
numbers (migration_notices a ns ∷ out) = numbers out

-- So many numbers in a row.
unfoldable pub range : ℕ → ℕ → List ℕ
range first zero = []
range first (suc n) = first ∷ range (suc first) n

numbers-append : (xs ys : List NodeOutput) → numbers (xs ++ ys) ≡ numbers xs ++ numbers ys
unfolding numbers
numbers-append [] ys = refl
numbers-append (committed_batches a r ds ∷ xs) ys = numbers-append xs ys
numbers-append (execute a d w n ∷ xs) ys = ap (λ l. n ∷ l) (numbers-append xs ys)
numbers-append (migration_notices a ns ∷ xs) ys = numbers-append xs ys

range-append :
    (first mid m n : ℕ) → mid ≡ first + m → range first m ++ range mid n ≡ range first (m + n)
unfolding range
range-append first mid zero n e =
    let same : mid ≡ first = omega arith in
    let all : n ≡ 0 + n = omega arith in ap (λ i. range i n) same ∙ ap (range first) all
range-append first mid (suc m) n e =
    let all : suc (m + n) ≡ suc m + n = omega arith in
    ap (λ l. first ∷ l) (range-append (suc first) mid m n (omega arith)) ∙ ap (range first) all

-- The messages carry the numbers from the first one up to the last one.
abbrev Numbered : List NodeOutput → ℕ → ℕ → Type 0
Numbered out first last = (n : ℕ) × (last ≡ first + n) × (numbers out ≡ range first n)

Numbered-append :
    (xs ys : List NodeOutput) (first mid last : ℕ)
    → Numbered xs first mid
    → Numbered ys mid last
    → Numbered (xs ++ ys) first last
Numbered-append xs ys first mid last (m, e, x) (n, f, y) = (
  m + n,
  omega arith,
  numbers-append xs ys
      ∙ (ap (λ l. l ++ numbers ys) x
          ∙ (ap (λ l. range first m ++ l) y ∙ range-append first mid m n e)),
)

execute_digests-Numbered :
    (a : SocketAddr) (w : WorkerId) (ds : List Digest) (first : ℕ)
    → Numbered (execute_digests a w ds first).0 first (execute_digests a w ds first).1
unfolding execute_digests numbers range
execute_digests-Numbered a w [] first = (0, omega arith, refl)
execute_digests-Numbered a w (d ∷ ds) first =
    let (n, e, x) = execute_digests-Numbered a w ds (suc first) in
    (suc n, omega arith, ap (λ l. first ∷ l) x)

notify_worker-numbers :
    (a : SocketAddr) (chunks : List (List MigrationNotice)) → numbers (notify_worker a chunks) ≡ []
unfolding notify_worker numbers
notify_worker-numbers a [] = refl
notify_worker-numbers a (c ∷ chunks) = notify_worker-numbers a chunks

dispatch_notices-numbers :
    (ours : Map WorkerId SocketAddr) (per_worker : Map WorkerId (List MigrationNotice))
    → numbers (dispatch_notices ours per_worker) ≡ []
unfolding dispatch_notices numbers
dispatch_notices-numbers ours [] = refl
dispatch_notices-numbers ours ((w, ns) ∷ per_worker) =
    let rest = dispatch_notices-numbers ours per_worker in
    elim (Option-cases (lookup w ours)) [
      | inl n ↦ rw (numbers, dispatch_notices, n) rest
      | inr (a, l) ↦
          let sent = notify_worker a (chunks_of (length ns) migration_chunk_size ns) in
          rw (numbers, dispatch_notices, l)
            (numbers-append sent (dispatch_notices ours per_worker)
              ∙ (ap (λ r. r ++ numbers (dispatch_notices ours per_worker))
                    (notify_worker-numbers a (chunks_of (length ns) migration_chunk_size ns))
                  ∙ rest))
    ]

dispatch_batches-Numbered :
    (ours : Map WorkerId SocketAddr) (round : ℕ) (per_worker : Map WorkerId (List Digest))
    (first : ℕ)
    → Numbered
        (dispatch_batches ours round per_worker first).0
        first
        (dispatch_batches ours round per_worker first).1
unfolding dispatch_batches numbers range
dispatch_batches-Numbered ours round [] first = (0, omega arith, refl)
dispatch_batches-Numbered ours round ((w, ds) ∷ per_worker) first =
    elim (Option-cases (lookup w ours)) [
      | inl n ↦ rw (dispatch_batches, n) (dispatch_batches-Numbered ours round per_worker first)
      | inr (a, l) ↦
          let (executions, next) = execute_digests a w ds first in
          rw (dispatch_batches, l)
            (Numbered-append executions (dispatch_batches ours round per_worker next).0 first next _
              (execute_digests-Numbered a w ds first)
              (dispatch_batches-Numbered ours round per_worker next))
    ]

analyze_output-Numbered :
    (ours : Map WorkerId SocketAddr) (output : ConsensusOutput) (first last : ℕ)
    (out : List NodeOutput)
    → analyze_output ours output first ≡ some (out, last)
    → Numbered out first last
unfolding analyze_output range
analyze_output-Numbered ours (certificate x) first last out h =
    let sent = dispatch_batches ours (round_of x) (group_by_worker x.header.payload []) first in
    let same : sent.0 ≡ out = ground arith in
    let same' : sent.1 ≡ last = ground arith in
    subst (λ l. Numbered out first l) same'
      (subst (λ o. Numbered o first sent.1) same
        (dispatch_batches-Numbered ours (round_of x) (group_by_worker x.header.payload []) first))
analyze_output-Numbered [] (migrations ns) first last out h = absurd (ground arith)
analyze_output-Numbered (w ∷ ours) (migrations ns) first last out h =
    let sent = dispatch_notices (w ∷ ours) (group_by_account (length (w ∷ ours)) ns []) in
    let same : sent ≡ out = ground arith in
    let same' : first ≡ last = ground arith in
    (
      0,
      omega arith,
      ap numbers (sym same)
          ∙ dispatch_notices-numbers (w ∷ ours) (group_by_account (length (w ∷ ours)) ns []),
    )

pub analyze-Numbered :
    (ours : Map WorkerId SocketAddr) (outputs : List ConsensusOutput) (first last : ℕ)
    (out : List NodeOutput)
    → analyze ours outputs first ≡ some (out, last)
    → (n : ℕ) × (last ≡ first + n) × (numbers out ≡ range first n)
unfolding analyze numbers range
analyze-Numbered ours [] first last out h =
    let same : [] ≡ out = ground arith in
    let same' : first ≡ last = ground arith in (0, omega arith, ap numbers (sym same))
analyze-Numbered ours (output ∷ outputs) first last out h =
    elim (Option-cases (analyze_output ours output first)) [
      | inl n ↦ absurd (ground arith)
      | inr ((sent, next), e) ↦ elim (Option-cases (analyze ours outputs next)) [
        | inl n ↦ absurd (ground arith)
        | inr ((later, end), f) ↦
            let same : sent ++ later ≡ out = ground arith in
            let same' : end ≡ last = ground arith in
            subst (λ l. Numbered out first l) same'
              (subst (λ o. Numbered o first end) same
                (Numbered-append sent later first next end
                  (analyze_output-Numbered ours output first next sent e)
                  (analyze-Numbered ours outputs next end later f)))
      ]
    ]
