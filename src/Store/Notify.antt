-- ===== src/Store/Notify.antt =====
-- store/src/lib.rs: a reader that waits for a key is answered by the first write of that key.
use mathlib.Core.List.{append-nil, append_assoc}
use dag_bft_sigmod.Base.{
  ◌≡◌, sym, ◌∙◌, ap, inl, inr, refl, subst, none, some, Option-cases, List, [], ◌∷◌, ◌++◌, arith,
  bytes_eq, bytes_beq, bytes_beq_iff, All, Bool, false, if◌then◌else◌, Bool-cases,
}
use dag_bft_sigmod.Base.Maps.{lookup, insert, remove, get_or, lookup-insert, lookup-remove}
use dag_bft_sigmod.Store.{
  Key, Value, ReplySender, StoreCommand, write, read, notify_read, delete, Obligations, oblige,
  notify_all, InMemory, step_in_memory, run_in_memory,
}

-- Those who wait for a key, first come first.
abbrev pub waiters : Key → InMemory → List ReplySender
waiters k m = get_or [] (lookup k m.obligations)

lookup-oblige :
    (j k : Key) (s : ReplySender) (os : Obligations)
    → get_or [] (lookup j (oblige k s os))
      ≡ (if bytes_beq k j then get_or [] (lookup j os) ++ s ∷ [] else get_or [] (lookup j os))
unfolding oblige
lookup-oblige j k s os =
    ground (arith, bytes_beq_iff k j, lookup-insert k j (get_or [] (lookup k os) ++ s ∷ []) os)

abbrev pub writes : Key → StoreCommand → Bool
writes k (write j v) = bytes_beq j k
writes k (read j s) = false
writes k (notify_read j s) = false
writes k (delete j) = false

-- A command other than a write of the key leaves its waiters in line.
step-waiters :
    (k : Key) (m : InMemory) (c : StoreCommand)
    → writes k c ≡ false
    → lookup k m.contents ≡ none
    → (lookup k (step_in_memory m c).0.contents ≡ none)
      × ((more : List ReplySender) × (waiters k (step_in_memory m c).0 ≡ waiters k m ++ more))
unfolding step_in_memory
step-waiters k m (write j v) w e = (
  ground (arith, lookup-insert j k v m.contents),
  ([], ground (arith, lookup-remove j k m.obligations, append-nil (waiters k m))),
)
step-waiters k m (read j s) w e = (e, ([], sym (append-nil (waiters k m))))
step-waiters k m (notify_read j s) w e = elim (Bool-cases (bytes_beq j k)) [
  | inl same ↦
      (ground arith, (s ∷ [], ground (arith, bytes_beq_iff j k, lookup-oblige k j s m.obligations)))
  | inr other ↦ (
    ground arith,
    ([], ground (arith, append-nil (waiters k m), lookup-oblige k j s m.obligations)),
  )
]
step-waiters k m (delete j) w e =
    (ground (arith, lookup-remove j k m.contents), ([], sym (append-nil (waiters k m))))

run-waiters :
    (k : Key) (m : InMemory) (cs : List StoreCommand)
    → All (λ c. writes k c ≡ false) cs
    → lookup k m.contents ≡ none
    → (more : List ReplySender) × (waiters k (run_in_memory m cs).0 ≡ waiters k m ++ more)
unfolding run_in_memory
run-waiters k m [] w e = ([], sym (append-nil (waiters k m)))
run-waiters k m (c ∷ cs) w e =
    let (missing, (more, first)) = step-waiters k m c w.0 e in
    let (rest, later) = run-waiters k (step_in_memory m c).0 cs w.1 missing in
    (more ++ rest, later ∙ ap (λ l. l ++ rest) first ∙ append_assoc (waiters k m) more rest)

-- Two states that differ at most in who waits for the key.
record Agree (k : Key) (m n : InMemory) : Type 0 where
  contents : m.contents ≡ n.contents
  waiting : (j : Key) → bytes_beq k j ≡ false → waiters j m ≡ waiters j n

oblige-Agree :
    (k j : Key) (s : ReplySender) (m n : InMemory)
    → Agree k m n
    → Agree k
        (record m { obligations = oblige j s m.obligations })
        (record n { obligations = oblige j s n.obligations })
oblige-Agree k j s m n h = record {
  contents = h.contents;
  waiting = λ i other. ground (
    arith,
    h.waiting i other,
    bytes_beq_iff j i,
    lookup-oblige i j s m.obligations,
    lookup-oblige i j s n.obligations,
  );
}

notify_read-Agree :
    (k : Key) (s : ReplySender) (m : InMemory)
    → lookup k m.contents ≡ none
    → Agree k m (step_in_memory m (notify_read k s)).0
unfolding step_in_memory
notify_read-Agree k s m e =
    rw (e, step_in_memory)
      (record {
        contents = refl;
        waiting = λ j other.
            ground (arith, bytes_beq_iff j k, bytes_beq_iff k j, lookup-oblige j k s m.obligations);
      })

write-Agree :
    (k j : Key) (v : Value) (m n : InMemory)
    → Agree k m n
    → Agree k (step_in_memory m (write j v)).0 (step_in_memory n (write j v)).0
unfolding step_in_memory
write-Agree k j v m n h = record {
  contents = ap (insert j v) h.contents;
  waiting = λ i other.
      ground (
        arith,
        h.waiting i other,
        lookup-remove j i m.obligations,
        lookup-remove j i n.obligations,
      );
}

-- Who waits for the key makes no difference to a command other than a write of it.
step-Agree :
    (k : Key) (m n : InMemory) (c : StoreCommand)
    → writes k c ≡ false
    → lookup k m.contents ≡ none
    → Agree k m n
    → ((step_in_memory m c).1 ≡ (step_in_memory n c).1)
      × Agree k (step_in_memory m c).0 (step_in_memory n c).0
unfolding step_in_memory
step-Agree k m n (write j v) w e h = (
  ap (notify_all v) (h.waiting j (ground (arith, bytes_beq_iff k j, bytes_beq_iff j k))),
  unfold step_in_memory in write-Agree k j v m n h,
)
step-Agree k m n (read j s) w e h = (ap (λ c. (s, lookup j c) ∷ []) h.contents, h)
step-Agree k m n (notify_read j s) w e h = elim (Option-cases (lookup j m.contents)) [
  | inl missing ↦
      let missing' = subst (λ c. lookup j c ≡ none) h.contents missing in
      rw (missing, step_in_memory) (rw (missing', step_in_memory) (refl, oblige-Agree k j s m n h))
  | inr (v, found) ↦
      let found' = subst (λ c. lookup j c ≡ some v) h.contents found in
      rw (found, step_in_memory) (rw (found', step_in_memory) (refl, h))
]
step-Agree k m n (delete j) w e h =
    (refl, record { contents = ap (remove j) h.contents; waiting = h.waiting })

run-Agree :
    (k : Key) (m n : InMemory) (cs : List StoreCommand)
    → All (λ c. writes k c ≡ false) cs
    → lookup k m.contents ≡ none
    → Agree k m n
    → (run_in_memory m cs).1 ≡ (run_in_memory n cs).1
unfolding run_in_memory
run-Agree k m n [] w e h = refl
run-Agree k m n (c ∷ cs) w e h =
    let (replies, after) = step-Agree k m n c w.0 e h in
    let (missing, _) = step-waiters k m c w.0 e in
    let later = run-Agree k (step_in_memory m c).0 (step_in_memory n c).0 cs w.1 missing after in cc

-- A reader that asks for a missing key: it gets no reply then, and the commands that come before the
-- first write of the key yield the replies that they yield without it, so that it gets none from
-- them either. The first write of the key sends it the written value, behind those who asked before
-- it; nobody then waits for the key any more.
pub notified_by_first_write :
    (m : InMemory) (k : Key) (s : ReplySender) (cs : List StoreCommand) (v : Value)
    → lookup k m.contents ≡ none
    → All (λ c. writes k c ≡ false) cs
    → let asked = (step_in_memory m (notify_read k s)).0 in
      let written = step_in_memory (run_in_memory asked cs).0 (write k v) in
      ((step_in_memory m (notify_read k s)).1 ≡ [])
      × ((run_in_memory asked cs).1 ≡ (run_in_memory m cs).1)
      × ((later : List ReplySender) × (written.1 ≡ notify_all v ((waiters k m ++ s ∷ []) ++ later)))
      × (waiters k written.0 ≡ [])
unfolding step_in_memory
notified_by_first_write m k s cs v e w =
    let asked = (step_in_memory m (notify_read k s)).0 in
    let (later, line) = run-waiters k asked cs w (ground arith) in
    (
      ground arith,
      sym (run-Agree k m asked cs w e (notify_read-Agree k s m e)),
      (
        later,
        ap (notify_all v) (
            line
            ∙ ap (λ l. l ++ later)
                (ground (arith, bytes_beq_iff k k, lookup-oblige k k s m.obligations))),
      ),
      ground (arith, bytes_beq_iff k k, lookup-remove k k (run_in_memory asked cs).0.obligations),
    )
