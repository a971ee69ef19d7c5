-- ===== src/Store.antt =====
-- store/src/lib.rs: the loop of the storage task. A reply channel is a number; a reply is the
-- channel with what is sent on it, and `none` answers a read of a missing key.
pub mod Notify
pub mod Backends
pub mod Examples
use dag_bft_sigmod.Base.{ℕ, Option, none, some, List, [], ◌∷◌, ◌++◌, map, bytes_eq}
use dag_bft_sigmod.Base.Maps.{Map, lookup, insert, remove, get_or}

abbrev pub Key : Type 0
Key = List ℕ

abbrev pub Value : Type 0
Value = List ℕ

abbrev pub ReplySender : Type 0
ReplySender = ℕ

pub data StoreCommand : Type 0 where
  write : Key → Value → StoreCommand
  read : Key → ReplySender → StoreCommand
  notify_read : Key → ReplySender → StoreCommand
  delete : Key → StoreCommand

abbrev pub Replies : Type 0
Replies = List (ReplySender × Option Value)

abbrev pub Obligations : Type 0
Obligations = Map Key (List ReplySender)

-- The value for every waiting sender, first come first served.
abbrev pub notify_all : Value → List ReplySender → Replies
notify_all v = map (λ s. (s, some v))

-- `obligations.entry(key).or_insert_with(VecDeque::new).push_back(sender)`.
unfoldable pub oblige : Key → ReplySender → Obligations → Obligations
unfolding lookup insert
oblige k s os = insert k (get_or [] (lookup k os) ++ s ∷ []) os

-- The task behind `Store::new_in_memory`.
pub record InMemory : Type 0 where
  pub contents : Map Key Value
  pub obligations : Obligations

unfoldable pub empty : InMemory
empty = record { contents = []; obligations = [] }

unfoldable pub step_in_memory : InMemory → StoreCommand → InMemory × Replies
unfolding oblige
step_in_memory m (write k v) = (
  record { contents = insert k v m.contents; obligations = remove k m.obligations },
  notify_all v (get_or [] (lookup k m.obligations)),
)
step_in_memory m (read k s) = (m, (s, lookup k m.contents) ∷ [])
step_in_memory m (notify_read k s) = elim (lookup k m.contents) [
  | some v ↦ (m, (s, some v) ∷ [])
  | none ↦ (record m { obligations = oblige k s m.obligations }, [])
]
step_in_memory m (delete k) = (record m { contents = remove k m.contents }, [])

unfoldable pub run_in_memory : InMemory → List StoreCommand → InMemory × List Replies
unfolding step_in_memory
run_in_memory m [] = (m, [])
run_in_memory m (c ∷ cs) =
    let (m', replies) = step_in_memory m c in
    let (last, later) = run_in_memory m' cs in (last, replies ∷ later)

-- What RocksDB answers: an error, or the value if there is one.
pub data DbResult : Type 0 where
  ok : Option Value → DbResult
  err : DbResult

-- The task behind `Store::new`. RocksDB is a parameter: its reads, and its writes, whose errors
-- the task ignores. A reply is `none` where it carries the error of the database.
module _ {D : Type 0} (get : D → Key → DbResult) (put : D → Key → Value → D) where
  unfoldable pub step_rocksdb :
      D × Obligations → StoreCommand → (D × Obligations) × List (ReplySender × DbResult)
  unfolding oblige
  step_rocksdb (db, os) (write k v) =
      ((put db k v, remove k os), map (λ s. (s, ok (some v))) (get_or [] (lookup k os)))
  step_rocksdb (db, os) (read k s) = ((db, os), (s, get db k) ∷ [])
  step_rocksdb (db, os) (notify_read k s) = elim (get db k) [
    | ok none ↦ ((db, oblige k s os), [])
    | ok (some v) ↦ ((db, os), (s, ok (some v)) ∷ [])
    | err ↦ ((db, os), (s, err) ∷ [])
  ]
  step_rocksdb (db, os) (delete k) = ((db, os), [])
