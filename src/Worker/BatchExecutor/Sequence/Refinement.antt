-- ===== src/Worker/BatchExecutor/Sequence/Refinement.antt =====
-- worker/src/batch_executor.rs: the executor with its buffer implements the execution in order.
use mathlib.Core.List.{Memᴰ}
use dag_bft_sigmod.Base.{
  ℕ, ◌+◌, ◌≤◌, ◌<◌, true, none, some, List, [], ◌∷◌, ◌≡◌, ◌⊎◌, inl, inr, refl, sym, subst, arith,
  All, length, ltb, ◌==◌, ==_iff, nat_eq, Option-cases, Bool-cases,
}
use dag_bft_sigmod.Base.Maps.{Map, lookup, insert, lookup-insert}
use dag_bft_sigmod.Worker.BatchExecutor.{BatchExecutor, BufferedBatch, ExecutorSetup}
use dag_bft_sigmod.Worker.BatchExecutor.Sequence.{execute_next, execute_buffered, process_execute}
use dag_bft_sigmod.Worker.BatchExecutor.Sequence.InOrder.{
  Arrival, process_all, forget_buffer, InOrder, start, next, executed, arrival, Buffered,
  Buffered-insert, Reached, Idle, is_handled, execute_next_forget, execute_next-Reached,
  execute_buffered-Reached, execute_buffered-Idle,
}

-- What a received batch does to the executor: it is next, or it waits.
process_execute-cases :
    (setup : ExecutorSetup) (b : Arrival) (s s' : BatchExecutor)
    → process_execute setup b.digest b.sequence b.transactions s ≡ some s'
    → ((b.sequence ≡ s.next_sequence)
        × ((t : BatchExecutor) × (execute_next setup b.digest b.transactions s ≡ some t)
            × (execute_buffered (length t.buffer) setup t ≡ some s')))
      ⊎ ((s.next_sequence < b.sequence)
          × (record s {
            buffer =
                insert b.sequence
                  (record { digest = b.digest; transactions = b.transactions })
                  s.buffer;
          }
              ≡ s'))
unfolding process_execute
process_execute-cases setup b s s' h = elim (Bool-cases (b.sequence == s.next_sequence)) [
  | inl e ↦ elim (Option-cases (execute_next setup b.digest b.transactions s)) [
    | inl n ↦ absurd (ground arith)
    | inr (t, x) ↦ inl ((==_iff b.sequence s.next_sequence).0 e, (t, x, ground arith))
  ]
  | inr e ↦ elim (Bool-cases (ltb s.next_sequence b.sequence)) [
    | inl l ↦ inr (ground arith, ground arith)
    | inr l ↦ absurd (ground arith)
  ]
]

process_execute_late :
    (setup : ExecutorSetup) (b : Arrival) (s s' : BatchExecutor) (first : ℕ)
    → first ≤ s.next_sequence
    → process_execute setup b.digest b.sequence b.transactions s ≡ some s'
    → first ≤ b.sequence
process_execute_late setup b s s' first le h = elim (process_execute-cases setup b s s' h) [
  | inl (at, _) ↦ omega (arith, at)
  | inr (later, _) ↦ omega (arith, later)
]

process_execute-Reached :
    (setup : ExecutorSetup) (received : List Arrival) (s0 s s' : BatchExecutor) (b : Arrival)
    → Memᴰ b received
    → process_execute setup b.digest b.sequence b.transactions s ≡ some s'
    → Reached setup received s0 s
    → Reached setup received s0 s'
process_execute-Reached setup received s0 s s' b m h r =
    elim (process_execute-cases setup b s s' h) [
      | inl (at, (t, x, y)) ↦
          execute_buffered-Reached (length t.buffer) setup received s0 t s' y
            (execute_next-Reached setup received s0 s t b m at x r)
      | inr (later, same) ↦
          subst (Reached setup received s0) same (r.0, Buffered-insert received b s.buffer m r.1)
    ]

is_handled-now :
    (k : ℕ) (s t : BatchExecutor)
    → t.next_sequence ≡ s.next_sequence + 1
    → k ≡ s.next_sequence
    → is_handled k t ≡ true
unfolding is_handled
is_handled-now k s t up at = ground arith

is_handled-next :
    (k : ℕ) (s t : BatchExecutor)
    → t.buffer ≡ s.buffer
    → t.next_sequence ≡ s.next_sequence + 1
    → is_handled k s ≡ true
    → is_handled k t ≡ true
unfolding is_handled
is_handled-next k s t same up h = rw same (ground arith)

abbrev with_batch : ℕ → BufferedBatch → BatchExecutor → BatchExecutor
with_batch sequence v s = record s { buffer = insert sequence v s.buffer }

with_batch-Idle :
    (k sequence : ℕ) (v : BufferedBatch) (s : BatchExecutor)
    → s.next_sequence < sequence
    → Idle s
    → Idle (with_batch sequence v s)
      × (is_handled sequence (with_batch sequence v s) ≡ true)
      × (is_handled k s ≡ true → is_handled k (with_batch sequence v s) ≡ true)
unfolding is_handled
with_batch-Idle k sequence v s later idle = (
  ground (arith, lookup-insert sequence s.next_sequence v s.buffer),
  ground (arith, lookup-insert sequence sequence v s.buffer),
  λ h. ground (arith, lookup-insert sequence k v s.buffer),
)

-- The batch's number is handled afterwards, and so is what was handled before.
process_execute-Idle :
    (setup : ExecutorSetup) (s s' : BatchExecutor) (b : Arrival) (k : ℕ)
    → process_execute setup b.digest b.sequence b.transactions s ≡ some s'
    → Idle s
    → Idle s' × (is_handled b.sequence s' ≡ true) × (is_handled k s ≡ true → is_handled k s' ≡ true)
process_execute-Idle setup s s' b k h idle = elim (process_execute-cases setup b s s' h) [
  | inl (at, (t, x, y)) ↦
      let (_, same, up) = execute_next_forget setup b.digest b.transactions s t x in
      let (idle', kept) = execute_buffered-Idle (length t.buffer) setup t s' k (omega arith) y in
      let (_, this) =
        execute_buffered-Idle (length t.buffer) setup t s' b.sequence (omega arith) y in
      (
        idle',
        this (is_handled-now b.sequence s t up at),
        λ x. kept (is_handled-next k s t same up x),
      )
  | inr (later, same) ↦
      subst
        (λ t.
          Idle t
          × (is_handled b.sequence t ≡ true)
          × (is_handled k s ≡ true → is_handled k t ≡ true))
        same
        (with_batch-Idle k b.sequence (record { digest = b.digest; transactions = b.transactions })
          s later idle)
]

-- The specification executes one batch for each number from its first to its last.
InOrder-executed :
    (setup : ExecutorSetup) (received : List Arrival) (s s' : BatchExecutor) (k : ℕ)
    (run : InOrder setup received s s')
    → (s.next_sequence ≤ s'.next_sequence)
      × (s.next_sequence ≤ k
          → k < s'.next_sequence
          → (x : Arrival) × Memᴰ x (executed setup received s s' run)
            × Memᴰ x received
            × (x.sequence ≡ k))
unfolding executed
InOrder-executed setup received s _ k start = (omega arith, λ low high. absurd (omega arith))
InOrder-executed setup received s _ k (next b t u run m at e) =
    let (_, _, up) = execute_next_forget setup b.digest b.transactions t u e in
    let (le, before) = InOrder-executed setup received s t k run in
    (
      omega arith,
      λ low high. elim (Bool-cases (ltb k t.next_sequence)) [
        | inl earlier ↦
            let (x, within, was, same) = before low (ground arith) in
            (x, Memᴰ.tail within, was, same)
        | inr last ↦ (b, Memᴰ.head refl, m, ground arith)
      ],
    )

process_all-from :
    (setup : ExecutorSetup) (received bs : List Arrival) (s0 s s' : BatchExecutor)
    → All (λ b. Memᴰ b received) bs
    → process_all setup bs s ≡ some s'
    → Reached setup received s0 s
    → Reached setup received s0 s' × All (λ b. s0.next_sequence ≤ b.sequence) bs
unfolding process_all
process_all-from setup received [] s0 s s' m h r =
    let same : s ≡ s' = ground arith in (subst (Reached setup received s0) same r, tt)
process_all-from setup received (b ∷ bs) s0 s s' m h r =
    elim (Option-cases (process_execute setup b.digest b.sequence b.transactions s)) [
      | inl n ↦ absurd (ground arith)
      | inr (t, e) ↦
          let (reached, later) =
            process_all-from setup received bs s0 t s' m.1 (ground arith)
              (process_execute-Reached setup received s0 s t b m.0 e r) in
          let (le, _) = InOrder-executed setup received s0 (forget_buffer s) 0 r.0 in
          (reached, (process_execute_late setup b s t s0.next_sequence le e, later))
    ]

process_all-Idle :
    (setup : ExecutorSetup) (bs : List Arrival) (s s' : BatchExecutor) (k : ℕ)
    → process_all setup bs s ≡ some s'
    → Idle s
    → Idle s'
      × All (λ b. is_handled b.sequence s' ≡ true) bs
      × (is_handled k s ≡ true → is_handled k s' ≡ true)
unfolding process_all
process_all-Idle setup [] s s' k h idle =
    let same : s ≡ s' = ground arith in
    subst (λ t. Idle t × Unit × (is_handled k s ≡ true → is_handled k t ≡ true)) same
      (idle, tt, λ x. x)
process_all-Idle setup (b ∷ bs) s s' k h idle =
    elim (Option-cases (process_execute setup b.digest b.sequence b.transactions s)) [
      | inl n ↦ absurd (ground arith)
      | inr (t, e) ↦
          let (idle', this, kept) = process_execute-Idle setup s t b k e idle in
          let (_, _, this') = process_all-Idle setup bs t s' b.sequence (ground arith) idle' in
          let (idle'', all, kept') = process_all-Idle setup bs t s' k (ground arith) idle' in
          (idle'', (this' this, all), λ x. kept' (kept x))
    ]

-- All of a list is in each list that it is the end of.
All-Memᴰ :
    (received bs : List Arrival)
    → ((b : Arrival) → Memᴰ b bs → Memᴰ b received)
    → All (λ b. Memᴰ b received) bs
All-Memᴰ received [] h = tt
All-Memᴰ received (b ∷ bs) h =
    (h b (Memᴰ.head refl), All-Memᴰ received bs (λ x m. h x (Memᴰ.tail m)))

lookup-empty : (k : ℕ) (m : Map ℕ BufferedBatch) → m ≡ [] → lookup k m ≡ none
unfolding lookup
lookup-empty k m h = subst (λ m'. lookup k m' ≡ none) (sym h) refl

-- A batch that was received under the number waits in the buffer.
abbrev pub Waits : List Arrival → Map ℕ BufferedBatch → ℕ → Type 0
Waits received buffer k =
    (v : BufferedBatch) × (lookup k buffer ≡ some v) × Memᴰ (arrival k v) received

-- A received batch that has the number is among the executed ones.
abbrev pub WasExecuted : List Arrival → List Arrival → ℕ → Type 0
WasExecuted received done k = (x : Arrival) × Memᴰ x done × Memᴰ x received × (x.sequence ≡ k)

is_handled-cases :
    (k : ℕ) (s : BatchExecutor)
    → is_handled k s ≡ true
    → (k < s.next_sequence) ⊎ ((v : BufferedBatch) × (lookup k s.buffer ≡ some v))
unfolding is_handled
is_handled-cases k s h = elim (Option-cases (lookup k s.buffer)) [
  | inl n ↦ inl (ground arith)
  | inr (v, l) ↦ inr (v, l)
]

-- Each number that is handled belongs to an executed batch or to one that waits.
All-handled :
    (setup : ExecutorSetup) (received bs : List Arrival) (s0 s : BatchExecutor)
    (run : InOrder setup received s0 (forget_buffer s))
    → Buffered received s.buffer
    → All (λ b. s0.next_sequence ≤ b.sequence) bs
    → All (λ b. is_handled b.sequence s ≡ true) bs
    → All
        (λ b.
          WasExecuted received (executed setup received s0 (forget_buffer s) run) b.sequence
          ⊎ Waits received s.buffer b.sequence)
        bs
All-handled setup received [] s0 s run kept low h = tt
All-handled setup received (b ∷ bs) s0 s run kept low h = (
  elim (is_handled-cases b.sequence s h.0) [
    | inl below ↦
        inl ((InOrder-executed setup received s0 (forget_buffer s) b.sequence run).1 low.0 below)
    | inr (v, l) ↦ inr (v, l, kept b.sequence v l)
  ],
  All-handled setup received bs s0 s run kept low.1 h.1,
)

-- An executor that starts with an empty buffer and receives batches in any order, with no panic: it
-- ends, but for its buffer, in a state that the specification reaches, which executes received batches
-- only, each when it is the next one; the next number is not in its buffer; and for the number of each
-- received batch, the specification executed a batch that was received under it, or such a batch waits
-- in the buffer. Of several batches with one number, the others may be lost.
pub process_all-refines :
    (setup : ExecutorSetup) (arrivals : List Arrival) (s s' : BatchExecutor)
    → s.buffer ≡ []
    → process_all setup arrivals s ≡ some s'
    → (run : InOrder setup arrivals (forget_buffer s) (forget_buffer s')) × (lookup s'.next_sequence
          s'.buffer
        ≡ none)
      × All
          (λ b.
            WasExecuted arrivals
              (executed setup arrivals (forget_buffer s) (forget_buffer s') run)
              b.sequence
            ⊎ Waits arrivals s'.buffer b.sequence)
          arrivals
process_all-refines setup arrivals s s' empty h =
    let kept : Buffered arrivals s.buffer =
      λ k v l. absurd (ground (arith, lookup-empty k s.buffer empty)) in
    let ((run, buffered), low) =
      process_all-from setup arrivals arrivals (forget_buffer s) s s'
        (All-Memᴰ arrivals arrivals (λ b m. m)) h (start, kept) in
    let (idle, all, _) =
      process_all-Idle setup arrivals s s' 0 h (lookup-empty s.next_sequence s.buffer empty) in
    (run, idle, All-handled setup arrivals arrivals (forget_buffer s) s' run buffered low all)
