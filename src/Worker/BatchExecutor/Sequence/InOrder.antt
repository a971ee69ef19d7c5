-- ===== src/Worker/BatchExecutor/Sequence/InOrder.antt =====
-- worker/src/batch_executor.rs: batches that arrive in any order are executed in the order of their
-- sequence numbers. The specification is a step relation on states without a buffer.
use mathlib.Core.List.{Memᴰ}
use dag_bft_sigmod.Base.{
  ℕ, zero, suc, ◌+◌, ◌≤◌, ◌<◌, Bool, true, ◌||◌, Option, none, some, List, [], ◌∷◌, ◌≡◌, inl, inr,
  refl, sym, ap, subst, ◌∙◌, arith, if◌then◌else◌, length, ltb, ◌==◌, ==_iff, nat_eq, Option-cases,
  Bool-cases,
}
use dag_bft_sigmod.Base.Maps.{
  Map, lookup, insert, remove, contains_key, lookup-insert, lookup-remove,
}
use dag_bft_sigmod.Primary.Errors.{Digest}
use dag_bft_sigmod.Worker.BatchExecutor.{BatchExecutor, BufferedBatch, ExecutorSetup}
use dag_bft_sigmod.Worker.BatchExecutor.Batches.{execute_batch}
use dag_bft_sigmod.Worker.BatchExecutor.Sequence.{
  send_feedback_if_needed, execute_next, execute_buffered, process_execute,
}

-- What the executor receives.
pub record Arrival : Type 0 where
  pub digest : Digest
  pub sequence : ℕ
  pub transactions : List (List ℕ)

-- `run`: the batches in the order in which they arrive.
unfoldable pub process_all : ExecutorSetup → List Arrival → BatchExecutor → Option BatchExecutor
unfolding process_execute
process_all setup [] s = some s
process_all setup (b ∷ bs) s = elim (process_execute setup b.digest b.sequence b.transactions s) [
  | none ↦ none
  | some s' ↦ process_all setup bs s'
]

abbrev pub forget_buffer : BatchExecutor → BatchExecutor
forget_buffer s = record s { buffer = [] }

-- The specification: from a state to those that it reaches by executing received batches, each of
-- them when it is the next one.
pub data InOrder (setup : ExecutorSetup) (received : List Arrival) (s : BatchExecutor)
    : BatchExecutor → Type 0 where
  start : InOrder setup received s s
  next :
      (b : Arrival) (t u : BatchExecutor)
      → InOrder setup received s t
      → Memᴰ b received
      → b.sequence ≡ t.next_sequence
      → execute_next setup b.digest b.transactions t ≡ some u
      → InOrder setup received s u

-- The batches that the specification executes on the way, the last one first.
unfoldable pub executed :
    (setup : ExecutorSetup) (received : List Arrival) (s s' : BatchExecutor)
    → InOrder setup received s s'
    → List Arrival
executed setup received s _ start = []
executed setup received s _ (next b t u run m at e) = b ∷ executed setup received s t run

pub execute_next_forget :
    (setup : ExecutorSetup) (d : Digest) (txs : List (List ℕ)) (s s' : BatchExecutor)
    → execute_next setup d txs s ≡ some s'
    → (execute_next setup d txs (forget_buffer s) ≡ some (forget_buffer s'))
      × (s'.buffer ≡ s.buffer)
      × (s'.next_sequence ≡ s.next_sequence + 1)
unfolding execute_next send_feedback_if_needed
execute_next_forget setup d txs s s' h =
    elim (Option-cases (execute_batch setup d txs s.execution)) [
      | inl n ↦ absurd (ground arith)
      | inr (st, e) ↦ ground (arith, e)
    ]

abbrev pub arrival : ℕ → BufferedBatch → Arrival
arrival k v = record { digest = v.digest; sequence = k; transactions = v.transactions }

-- What is in the buffer was received.
abbrev pub Buffered : List Arrival → Map ℕ BufferedBatch → Type 0
Buffered received buffer =
    (k : ℕ) (v : BufferedBatch) → lookup k buffer ≡ some v → Memᴰ (arrival k v) received

Buffered-remove :
    (received : List Arrival) (j : ℕ) (buffer : Map ℕ BufferedBatch)
    → Buffered received buffer
    → Buffered received (remove j buffer)
Buffered-remove received j buffer h k v l = h k v (ground (arith, lookup-remove j k buffer))

pub Buffered-insert :
    (received : List Arrival) (b : Arrival) (buffer : Map ℕ BufferedBatch)
    → Memᴰ b received
    → Buffered received buffer
    → Buffered received
        (insert b.sequence (record { digest = b.digest; transactions = b.transactions }) buffer)
Buffered-insert received b buffer m h k v l =
    let entry : BufferedBatch = record { digest = b.digest; transactions = b.transactions } in
    let found : (if b.sequence == k then some entry else lookup k buffer) ≡ some v =
      sym (lookup-insert b.sequence k entry buffer) ∙ l in
    elim (Bool-cases (b.sequence == k)) [
      | inl same ↦
          let here : entry ≡ v = ground (arith, found) in
          let key : b.sequence ≡ k = (==_iff b.sequence k).0 same in
          let whole : b ≡ arrival k v = cc in subst (λ x. Memᴰ x received) whole m
      | inr other ↦ h k v (ground arith)
    ]

length-remove_le : (k : ℕ) (m : Map ℕ BufferedBatch) → length (remove k m) ≤ length m
unfolding remove
length-remove_le k [] = omega arith
length-remove_le k ((j, v) ∷ m) = ground (arith, length-remove_le k m)

length-remove :
    (k : ℕ) (v : BufferedBatch) (m : Map ℕ BufferedBatch)
    → lookup k m ≡ some v
    → length (remove k m) < length m
unfolding remove lookup
length-remove k v [] h = absurd (cc)
length-remove k v ((j, w) ∷ m) h = elim (Bool-cases (j == k)) [
  | inl e ↦ ground (arith, length-remove_le k m)
  | inr e ↦ ground (arith, length-remove k v m (ground arith))
]

-- A sequence number is handled if it is below the next one or in the buffer.
unfoldable pub is_handled : ℕ → BatchExecutor → Bool
unfolding lookup
is_handled sequence s = ltb sequence s.next_sequence || contains_key sequence s.buffer

abbrev pub Reached : ExecutorSetup → List Arrival → BatchExecutor → BatchExecutor → Type 0
Reached setup received s0 s =
    InOrder setup received s0 (forget_buffer s) × Buffered received s.buffer

pub execute_next-Reached :
    (setup : ExecutorSetup) (received : List Arrival) (s0 s s' : BatchExecutor) (b : Arrival)
    → Memᴰ b received
    → b.sequence ≡ s.next_sequence
    → execute_next setup b.digest b.transactions s ≡ some s'
    → Reached setup received s0 s
    → Reached setup received s0 s'
execute_next-Reached setup received s0 s s' b m at h (run, kept) =
    let (e, same, up) = execute_next_forget setup b.digest b.transactions s s' h in
    (
      next b (forget_buffer s) (forget_buffer s') run m at e,
      subst (Buffered received) (sym same) kept,
    )

-- The buffered batch that is next, without its entry.
abbrev without_next : BatchExecutor → BatchExecutor
without_next s = record s { buffer = remove s.next_sequence s.buffer }

pub execute_buffered-Reached :
    (fuel : ℕ) (setup : ExecutorSetup) (received : List Arrival) (s0 s s' : BatchExecutor)
    → execute_buffered fuel setup s ≡ some s'
    → Reached setup received s0 s
    → Reached setup received s0 s'
unfolding execute_buffered
execute_buffered-Reached zero setup received s0 s s' h r =
    let same : s ≡ s' = ground arith in subst (Reached setup received s0) same r
execute_buffered-Reached (suc fuel) setup received s0 s s' h r =
    elim (Option-cases (lookup s.next_sequence s.buffer)) [
      | inl n ↦ let same : s ≡ s' = ground arith in subst (Reached setup received s0) same r
      | inr (v, l) ↦
          elim (Option-cases (execute_next setup v.digest v.transactions (without_next s))) [
            | inl n ↦ absurd (ground arith)
            | inr (t, e) ↦
                let r' : Reached setup received s0 (without_next s) =
                  (r.0, Buffered-remove received s.next_sequence s.buffer r.1) in
                execute_buffered-Reached fuel setup received s0 t s' (ground arith) (
                  execute_next-Reached setup received s0 (without_next s) t
                    (arrival s.next_sequence v) (r.1 s.next_sequence v l) refl e r')
          ]
    ]

abbrev pub Idle : BatchExecutor → Type 0
Idle s = lookup s.next_sequence s.buffer ≡ none

Idle-empty : (k : ℕ) (m : Map ℕ BufferedBatch) → length m ≤ 0 → lookup k m ≡ none
unfolding lookup
Idle-empty k [] h = refl
Idle-empty k (x ∷ m) h = absurd (omega arith)

is_handled-without_next :
    (k : ℕ) (s t : BatchExecutor)
    → t.buffer ≡ remove s.next_sequence s.buffer
    → t.next_sequence ≡ s.next_sequence + 1
    → is_handled k s ≡ true
    → is_handled k t ≡ true
unfolding is_handled
is_handled-without_next k s t same up h =
    rw same (ground (arith, lookup-remove s.next_sequence k s.buffer, ==_iff s.next_sequence k))

-- The fuel is enough, and nothing that was handled is lost.
pub execute_buffered-Idle :
    (fuel : ℕ) (setup : ExecutorSetup) (s s' : BatchExecutor) (k : ℕ)
    → length s.buffer ≤ fuel
    → execute_buffered fuel setup s ≡ some s'
    → Idle s' × (is_handled k s ≡ true → is_handled k s' ≡ true)
unfolding execute_buffered
execute_buffered-Idle zero setup s s' k small h =
    let same : s ≡ s' = ground arith in
    subst (λ t. Idle t × (is_handled k s ≡ true → is_handled k t ≡ true)) same
      (Idle-empty s.next_sequence s.buffer small, λ x. x)
execute_buffered-Idle (suc fuel) setup s s' k small h =
    elim (Option-cases (lookup s.next_sequence s.buffer)) [
      | inl n ↦
          let same : s ≡ s' = ground arith in
          subst (λ t. Idle t × (is_handled k s ≡ true → is_handled k t ≡ true)) same (n, λ x. x)
      | inr (v, l) ↦
          elim (Option-cases (execute_next setup v.digest v.transactions (without_next s))) [
            | inl n ↦ absurd (ground arith)
            | inr (t, e) ↦
                let (_, same, up) =
                  execute_next_forget setup v.digest v.transactions (without_next s) t e in
                let shorter = length-remove s.next_sequence v s.buffer l in
                let (idle, more) =
                  execute_buffered-Idle fuel setup t s' k (omega (arith, shorter, ap length same))
                    (ground arith) in
                (idle, λ x. more (is_handled-without_next k s t same up x))
          ]
    ]
