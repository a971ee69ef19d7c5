-- ===== src/Store/Backends.antt =====
-- store/src/lib.rs: the two storage tasks answer alike.
use dag_bft_sigmod.Base.{
  ◌≡◌, refl, ◌∙◌, ap, ap₂, Option, some, List, [], ◌∷◌, map, arith, bytes_eq, bytes_beq, All, Bool,
  true, false, if◌then◌else◌, Option-cases, inl, inr,
}
use dag_bft_sigmod.Base.Maps.{lookup, remove, get_or, lookup-insert}
use dag_bft_sigmod.Store.{
  Key, Value, ReplySender, StoreCommand, write, read, notify_read, delete, Obligations, Replies,
  oblige, notify_all, InMemory, DbResult, ok, step_in_memory, run_in_memory, step_rocksdb,
}

abbrev pub is_delete : StoreCommand → Bool
is_delete (delete k) = true
is_delete (write k v) = false
is_delete (read k s) = false
is_delete (notify_read k s) = false

abbrev pub as_db : Replies → List (ReplySender × DbResult)
as_db = map (λ (r : ReplySender × Option Value). (r.0, ok r.1))

as_db-notify_all :
    (v : Value) (ss : List ReplySender)
    → as_db (notify_all v ss) ≡ map (λ (s : ReplySender). (s, ok (some v))) ss
as_db-notify_all v [] = refl
as_db-notify_all v (s ∷ ss) = ap (λ l. (s, ok (some v)) ∷ l) (as_db-notify_all v ss)

module _ {D : Type 0} (get : D → Key → DbResult) (put : D → Key → Value → D) where
  unfoldable pub run_rocksdb :
      D × Obligations → List StoreCommand → (D × Obligations) × List (List (ReplySender × DbResult))
  unfolding step_rocksdb
  run_rocksdb d [] = (d, [])
  run_rocksdb d (c ∷ cs) =
      let (d', replies) = step_rocksdb get put d c in
      let (last, later) = run_rocksdb d' cs in (last, replies ∷ later)

  -- The database reads what the map holds, and the same senders wait.
  pub record Mirrors (db : D) (os : Obligations) (m : InMemory) : Type 0 where
    pub reads : (k : Key) → get db k ≡ ok (lookup k m.contents)
    pub waits : os ≡ m.obligations

-- A database whose writes succeed: a read gives the last value written.
abbrev pub GetPut : {D : Type 0} → (D → Key → DbResult) → (D → Key → Value → D) → Type 0
GetPut {D} get put =
    (db : D) (k j : Key) (v : Value)
    → get (put db k v) j ≡ (if bytes_beq k j then ok (some v) else get db j)

module _ {D : Type 0} (get : D → Key → DbResult) (put : D → Key → Value → D)
    (law : GetPut get put) where
  step-Mirrors :
      (db : D) (os : Obligations) (m : InMemory) (c : StoreCommand)
      → is_delete c ≡ false
      → Mirrors get put db os m
      → (Mirrors get put
          (step_rocksdb get put (db, os) c).0.0
          (step_rocksdb get put (db, os) c).0.1
          (step_in_memory m c).0)
        × ((step_rocksdb get put (db, os) c).1 ≡ as_db (step_in_memory m c).1)
  unfolding step_rocksdb step_in_memory
  step-Mirrors db os m (write k v) d h = (
    record {
      reads = λ j. ground (arith, law db k j v, h.reads j, lookup-insert k j v m.contents);
      waits = ap (remove k) h.waits;
    },
    ground (arith, h.waits, as_db-notify_all v (get_or [] (lookup k m.obligations))),
  )
  step-Mirrors db os m (read k s) d h = (h, ground (arith, h.reads k))
  step-Mirrors db os m (notify_read k s) d h = elim (Option-cases (lookup k m.contents)) [
    | inl e ↦
        rw (h.reads k ∙ ap ok e, step_rocksdb, e, step_in_memory)
          (record { reads = h.reads; waits = ap (oblige k s) h.waits }, refl)
    | inr (v, e) ↦ rw (h.reads k ∙ ap ok e, step_rocksdb, e, step_in_memory) (h, refl)
  ]
  step-Mirrors db os m (delete k) d h = absurd (cc)

  -- Without deletions, and while no write fails, the RocksDB task and the in-memory task answer every
  -- sequence of commands alike, each reader at the same command and with the same value.
  pub rocksdb-eq-in_memory :
      (db : D) (os : Obligations) (m : InMemory) (cs : List StoreCommand)
      → All (λ c. is_delete c ≡ false) cs
      → Mirrors get put db os m
      → (run_rocksdb get put (db, os) cs).1 ≡ map as_db (run_in_memory m cs).1
  unfolding run_rocksdb run_in_memory
  rocksdb-eq-in_memory db os m [] d h = refl
  rocksdb-eq-in_memory db os m (c ∷ cs) d h =
      let (h', e) = step-Mirrors db os m c d.0 h in
      ap₂ ◌∷◌ e (
        rocksdb-eq-in_memory (step_rocksdb get put (db, os) c).0.0
          (step_rocksdb get put (db, os) c).0.1 (step_in_memory m c).0 cs d.1 h')
