-- ===== src/Storage/Rocks.antt =====
-- RocksDB, which is not part of the repository: the calls that RocksEngine makes, and what its
-- documentation says of them. `contents` is the map that a database holds.
use learn_git.Base.{
  Bytes, Option, List, if◌then◌else◌, ◌∷◌, Bool, ◌≡◌, bytes_lt, bytes_eq, [], ◌⊎◌, true, some, none,
  false,
}

-- One operation of a rocksdb::WriteBatch.
pub data Op : Type 0 where
  put : Bytes → Bytes → Op
  delete : Bytes → Op

-- The outcome of DB::Get.
pub data GetStatus : Type 0 where
  found : Bytes → GetStatus
  not_found : GetStatus
  failed : GetStatus

-- The map after an operation.
abbrev pub apply_op : Op → (Bytes → Option Bytes) → Bytes → Option Bytes
apply_op (put k v) m j = if bytes_eq k j then some v else m j
apply_op (delete k) m j = if bytes_eq k j then none else m j

abbrev pub apply_ops : List Op → (Bytes → Option Bytes) → Bytes → Option Bytes
apply_ops [] m = m
apply_ops (o ∷ os) m = apply_ops os (apply_op o m)

-- Keys rise along the list.
abbrev pub AllAbove : Bytes → List (Bytes × Bytes) → Type 0
AllAbove k [] = Unit {0}
AllAbove k ((j, v) ∷ es) = (bytes_lt k j ≡ true) × AllAbove k es

abbrev pub IsAscending : List (Bytes × Bytes) → Type 0
IsAscending [] = Unit {0}
IsAscending ((k, v) ∷ es) = AllAbove k es × IsAscending es

abbrev pub Holds : Bytes → Bytes → List (Bytes × Bytes) → Type 0
Holds k v [] = ⊥
Holds k v ((j, w) ∷ es) = ((k ≡ j) × (v ≡ w)) ⊎ Holds k v es

-- `seek` is what an iterator yields from Seek(key) on until it is no longer valid, which is at the end
-- of the keys or at an error, and `seek_ok` whether its status() is ok then. Put, Delete and Write return the new
-- database and whether the status is ok; the laws speak of calls that are.
pub record RocksDb : Type 1 where
  pub Db : Type 0
  pub contents : Db → Bytes → Option Bytes
  pub get : Db → Bytes → GetStatus
  pub put_status : Db → Bytes → Bytes → Db × Bool
  pub delete_status : Db → Bytes → Db × Bool
  pub write : Db → List Op → Db × Bool
  pub seek : Db → Bytes → List (Bytes × Bytes)
  pub seek_ok : Db → Bytes → Bool
  pub get_found : (d : Db) (k v : Bytes) → get d k ≡ found v → contents d k ≡ some v
  pub get_not_found : (d : Db) (k : Bytes) → get d k ≡ not_found → contents d k ≡ none
  pub put_ok :
      (d : Db) (k v j : Bytes)
      → (put_status d k v).1 ≡ true
      → contents (put_status d k v).0 j ≡ apply_op (put k v) (contents d) j
  pub delete_ok :
      (d : Db) (k j : Bytes)
      → (delete_status d k).1 ≡ true
      → contents (delete_status d k).0 j ≡ apply_op (delete k) (contents d) j
  pub write_ok :
      (d : Db) (os : List Op) (j : Bytes)
      → (write d os).1 ≡ true
      → contents (write d os).0 j ≡ apply_ops os (contents d) j
  pub seek_holds :
      (d : Db) (s k v : Bytes)
      → Holds k v (seek d s)
      → (contents d k ≡ some v) × (bytes_lt k s ≡ false)
  pub seek_all :
      (d : Db) (s k v : Bytes)
      → seek_ok d s ≡ true
      → contents d k ≡ some v
      → bytes_lt k s ≡ false
      → Holds k v (seek d s)
  pub seek_ascends : (d : Db) (s : Bytes) → IsAscending (seek d s)
