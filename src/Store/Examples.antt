-- ===== src/Store/Examples.antt =====
-- Command sequences of the store, and the theorems of `Store` at them.
use dag_bft_sigmod.Base.{
  ◌≡◌, refl, List, [], ◌∷◌, ◌++◌, map, some, arith, bytes_eq, bytes_beq, if◌then◌else◌,
}
use dag_bft_sigmod.Base.Maps.{Map, lookup, insert, lookup-insert}
use dag_bft_sigmod.Store.{
  Key, Value, ReplySender, StoreCommand, write, read, notify_read, delete, DbResult, ok, empty,
  step_in_memory, run_in_memory, notify_all,
}
use dag_bft_sigmod.Store.Notify.{waiters, notified_by_first_write}
use dag_bft_sigmod.Store.Backends.{as_db, run_rocksdb, rocksdb-eq-in_memory}

abbrev other_commands : List StoreCommand
other_commands =
    read (1 ∷ []) 5 ∷ notify_read (1 ∷ []) 6 ∷ write (2 ∷ []) (9 ∷ []) ∷ delete (1 ∷ []) ∷ []

notified_by_first_write_example :
    let asked = (step_in_memory empty (notify_read (1 ∷ []) 4)).0 in
    let written = step_in_memory (run_in_memory asked other_commands).0 (write (1 ∷ []) (8 ∷ [])) in
    ((step_in_memory empty (notify_read (1 ∷ []) 4)).1 ≡ [])
    × ((run_in_memory asked other_commands).1 ≡ (run_in_memory empty other_commands).1)
    × ((later : List ReplySender) × (written.1
          ≡ notify_all (8 ∷ []) ((waiters (1 ∷ []) empty ++ 4 ∷ []) ++ later)))
    × (waiters (1 ∷ []) written.0 ≡ [])
unfolding empty lookup bytes_beq
notified_by_first_write_example =
    notified_by_first_write empty (1 ∷ []) 4 other_commands (8 ∷ []) refl
      (refl, (refl, (refl, (refl, tt))))

-- A database that is a map.
abbrev get_map : Map Key Value → Key → DbResult
get_map db k = ok (lookup k db)

abbrev put_map : Map Key Value → Key → Value → Map Key Value
put_map db k v = insert k v db

get-put_map :
    (db : Map Key Value) (k j : Key) (v : Value)
    → get_map (put_map db k v) j ≡ (if bytes_beq k j then ok (some v) else get_map db j)
get-put_map db k j v = ground (arith, lookup-insert k j v db)

abbrev undeleting : List StoreCommand
undeleting = notify_read (1 ∷ []) 6 ∷ write (1 ∷ []) (9 ∷ []) ∷ read (1 ∷ []) 5 ∷ []

rocksdb-eq-in_memory_example :
    (run_rocksdb get_map put_map ([], []) undeleting).1
    ≡ map as_db (run_in_memory empty undeleting).1
unfolding empty
rocksdb-eq-in_memory_example =
    rocksdb-eq-in_memory get_map put_map get-put_map [] [] empty undeleting
      (refl, (refl, (refl, tt))) (record { reads = λ k. refl; waits = refl })
