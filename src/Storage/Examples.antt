-- ===== src/Storage/Examples.antt =====
-- The theorems about the engine on a database in memory.
use learn_git.Storage.Scans.{before_end, engine_scan-Holds}
use learn_git.Base.{List, [], ◌∷◌, true, false, some, bytes_lt, bytes_eq, refl, ◌↔◌, ◌≡◌}
use learn_git.Storage.Rocks.{Op, put, delete, Holds}
use learn_git.Storage.Memory.{
  memory_db, status-ne-failed, lookup, table, insert, keep, from, status,
}
use learn_git.Storage.Engine.{NeverFails, engine_scan, scan_loop}

-- The keys a, b and c, and the key b deleted.
abbrev pub three_keys : List Op
three_keys =
    delete (b'b' ∷ [])
    ∷ put (b'c' ∷ []) (3 ∷ [])
    ∷ put (b'b' ∷ []) (2 ∷ [])
    ∷ put (b'a' ∷ []) (1 ∷ [])
    ∷ []

pub memory_db-NeverFails : NeverFails memory_db
memory_db-NeverFails = record {
  puts = λ d k v. refl;
  deletes = λ d k. refl;
  writes = λ d os. refl;
  gets = λ d k. status-ne-failed (lookup k (table d));
  seeks = λ d k. refl;
}

engine_scan-Holds_example :
    Holds (b'a' ∷ []) (1 ∷ []) (engine_scan memory_db three_keys (b'a' ∷ []) [] 10).kvs ↔ (
      (memory_db.contents three_keys (b'a' ∷ []) ≡ some (1 ∷ []))
      × (bytes_lt (b'a' ∷ []) (b'a' ∷ []) ≡ false)
      × (before_end [] (b'a' ∷ []) ≡ true))
unfolding engine_scan scan_loop bytes_lt bytes_eq table insert keep from status
engine_scan-Holds_example =
    engine_scan-Holds memory_db three_keys (b'a' ∷ []) [] 10 (b'a' ∷ []) (1 ∷ []) refl refl
