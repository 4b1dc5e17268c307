-- ===== src/Storage/Engine.antt =====
-- RocksEngine (rocks_engine.cpp) on an open database; open and close call only the library.
use learn_git.Base.{
  ℕ, List, [], ◌∷◌, ◌++◌, Bool, true, false, ◌-◌, if◌then◌else◌, not, is_empty, ◌&&◌, bytes_ge,
  ◌==◌, ◌≡◌, ◌≢◌, sym, refl,
}
use learn_git.Base.{List, Bytes, Option, map, Bool, ℕ, some, ◌++◌, false, none}
use learn_git.Storage.Rocks.{RocksDb, Op, put, delete, GetStatus}

pub record ScanResult : Type 0 where
  pub kvs : List (Bytes × Bytes)
  pub has_more : Bool
  pub next_key : Bytes

-- The loop of `scan` over what the iterator yields; `room` is limit - count.
unfoldable pub scan_loop : Bytes → ℕ → List (Bytes × Bytes) → ScanResult
scan_loop end_key room [] = record { kvs = []; has_more = false; next_key = [] }
scan_loop end_key room ((k, v) ∷ es) =
    let rest = scan_loop end_key (room - 1) es in
    if not (is_empty end_key) && bytes_ge k end_key
    then record { kvs = []; has_more = false; next_key = [] }
    else if room == 0
    then record { kvs = []; has_more = true; next_key = k }
    else record rest { kvs = (k, v) ∷ rest.kvs }

-- `batch.Put` for each pair, then `batch.Delete` for each key.
unfoldable pub batch : List (Bytes × Bytes) → List Bytes → List Op
batch puts deletes = map (λ e. put e.0 e.1) puts ++ map delete deletes

module _ (r : RocksDb) where
  open r use {Db, put_status, delete_status, write, seek}

  unfoldable pub engine_put : Db → Bytes → Bytes → Db × Bool
  engine_put db key value = put_status db key value

  -- True with the value, or false on a missing key and on an error.
  unfoldable pub engine_get : Db → Bytes → Option Bytes
  engine_get db key = elim (r.get db key) [ GetStatus.found v ↦ some v | _ ↦ none ]

  unfoldable pub engine_del : Db → Bytes → Db × Bool
  engine_del db key = delete_status db key

  unfoldable pub engine_scan : Db → Bytes → Bytes → ℕ → ScanResult
  engine_scan db start_key end_key limit = scan_loop end_key limit (seek db start_key)

  unfoldable pub write_batch : Db → List (Bytes × Bytes) → List Bytes → Db × Bool
  write_batch db puts deletes = write db (batch puts deletes)

-- No call of the database ends with an error, and no iterator does.
pub record NeverFails (r : RocksDb) : Type 0 where
  pub puts : (d : r.Db) (k v : Bytes) → (r.put_status d k v).1 ≡ true
  pub deletes : (d : r.Db) (k : Bytes) → (r.delete_status d k).1 ≡ true
  pub writes : (d : r.Db) (os : List Op) → (r.write d os).1 ≡ true
  pub gets : (d : r.Db) (k : Bytes) → r.get d k ≢ GetStatus.failed
  pub seeks : (d : r.Db) (k : Bytes) → r.seek_ok d k ≡ true

abbrev of_status : GetStatus → Option Bytes
of_status (GetStatus.found v) = some v
of_status _ = none

-- Then the engine reads what the database holds.
pub engine_get-contents :
    (r : RocksDb) → NeverFails r → (db : r.Db) (k : Bytes) → engine_get r db k ≡ r.contents db k
unfolding engine_get
engine_get-contents r sure db k = go (r.get db k) refl
  where
    go : (s : GetStatus) → r.get db k ≡ s → of_status s ≡ r.contents db k
    go (GetStatus.found w) q = sym (r.get_found db k w q)
    go GetStatus.not_found q = sym (r.get_not_found db k q)
    go GetStatus.failed q = absurd (sure.gets db k q)
