-- ===== src/RaftService/Loss.antt =====
-- What is on disk after persistRaftState has run once and twice (raft_service.cpp). The batch puts
-- the log and then deletes every key that the scan before it found.
use learn_git.Raft.Types.{Persistent}
use learn_git.Storage.Scans.{before_end, engine_scan-Holds, scan_loop-in_range, in_range-Holds}
use learn_git.RaftService.Recovery.{
  persist_numbers, persist_raft_state, scan_log, log_puts, parse_entries, scan_limit,
}
use learn_git.Kv.Messages.{Protobuf}
use learn_git.RaftService.Keys.{term_key, log_start, log_end, to_string, vote_key}
use learn_git.Base.{
  List, [], ◌∷◌, ◌++◌, Bool, false, Bytes, Option, none, some, ◌≡◌, map, if◌then◌else◌, bytes_eq,
  ◌∙◌, ◌||◌, arith, sym, refl, bytes_lt, true, inl, bytes_eq_iff, inr, ◌≢◌, ap, drop, Option-cases,
  ℕ, take, suc, zero,
}
use learn_git.Storage.Rocks.{Op, put, delete, apply_op, apply_ops, RocksDb, Holds}
use learn_git.Storage.Engine.{batch, engine_put, write_batch, engine_scan, NeverFails}

-- Whether the key is in the list.
unfoldable pub has_key : Bytes → List Bytes → Bool
has_key k [] = false
has_key k (j ∷ js) = bytes_eq j k || has_key k js

-- The value that the last put of the key writes.
unfoldable pub last_put : Bytes → List (Bytes × Bytes) → Option Bytes → Option Bytes
last_put k [] old = old
last_put k ((j, v) ∷ puts) old = last_put k puts (if bytes_eq j k then some v else old)

apply_deletes :
    (dels : List Bytes) (m : Bytes → Option Bytes) (k : Bytes)
    → apply_ops (map delete dels) m k ≡ (if has_key k dels then none else m k)
unfolding has_key
apply_deletes [] m k = refl
apply_deletes (j ∷ dels) m k = apply_deletes dels (apply_op (delete j) m) k ∙ ground arith

apply_puts :
    (puts : List (Bytes × Bytes)) (os : List Op) (m : Bytes → Option Bytes) (k : Bytes)
    → ((m' : Bytes → Option Bytes) → apply_ops os m' k ≡ apply_ops os (λ _. m' k) k)
    → apply_ops (map (λ e. put e.0 e.1) puts ++ os) m k
      ≡ apply_ops os (λ _. last_put k puts (m k)) k
unfolding last_put
apply_puts [] os m k h = h m
apply_puts ((j, v) ∷ puts) os m k h = apply_puts puts os (apply_op (put j v) m) k h

-- A key that the batch deletes is gone, put or not; any other key has what was put last.
pub apply_batch :
    (puts : List (Bytes × Bytes)) (dels : List Bytes) (m : Bytes → Option Bytes) (k : Bytes)
    → apply_ops (batch puts dels) m k ≡ (if has_key k dels then none else last_put k puts (m k))
unfolding batch
apply_batch puts dels m k =
    apply_puts puts (map delete dels) m k
      (λ m'. apply_deletes dels m' k ∙ sym (apply_deletes dels (λ _. m' k) k))
    ∙ apply_deletes dels _ k

-- The key lies where the scan for log entries looks.
abbrev pub InLog : Bytes → Type 0
InLog k = (bytes_lt k log_start ≡ false) × (before_end log_end k ≡ true)

pub zero_key-outside : (rest k : Bytes) → InLog k → bytes_eq (0 ∷ rest) k ≡ false
unfolding bytes_eq bytes_lt
zero_key-outside rest [] h = ground arith
zero_key-outside rest (x ∷ k) h = ground arith

Holds-take :
    (k v : Bytes) (n : ℕ) (es : List (Bytes × Bytes)) → Holds k v (take n es) → Holds k v es
Holds-take k v zero es h = absurd h
Holds-take k v (suc n) [] h = absurd h
Holds-take k v (suc n) ((j, w) ∷ es) (inl e) = inl e
Holds-take k v (suc n) ((j, w) ∷ es) (inr h) = inr (Holds-take k v n es h)

Holds-none : (es : List (Bytes × Bytes)) → ((k v : Bytes) → ¬ Holds k v es) → es ≡ []
Holds-none [] h = refl
Holds-none ((k, v) ∷ es) h = absurd (h k v (inl (refl, refl)))

-- No key of the log is in the database.
abbrev pub HasNoLog : (r : RocksDb) → r.Db → Type 0
HasNoLog r db = (k v : Bytes) → InLog k → r.contents db k ≢ some v

module _ (r : RocksDb) (pb : Protobuf) (sure : NeverFails r) where
  open r use {Db, contents, put_ok, write_ok, seek_holds}

  contents-persist_numbers :
      (db : Db) (p : Persistent) (k : Bytes)
      → InLog k
      → contents (persist_numbers r pb db p) k ≡ contents db k
  unfolding persist_numbers engine_put
  contents-persist_numbers db p k h =
      let after_term = engine_put r db term_key (to_string p.current_term) in
      put_ok after_term.0 vote_key (to_string p.voted_for) k (sure.puts _ _ _)
      ∙ rw (zero_key-outside (drop 1 vote_key) k h) (
          put_ok db term_key (to_string p.current_term) k (sure.puts _ _ _)
          ∙ rw (zero_key-outside (drop 1 term_key) k h))

  -- After persistRaftState a key that the scan found is gone; any other key of the log has what
  -- the put of the log wrote.
  contents-persist_raft_state :
      (db : Db) (p : Persistent) (k : Bytes)
      → InLog k
      → contents (persist_raft_state r pb db p) k ≡ (
          if has_key k (map (λ e. e.0) (scan_log r pb (persist_numbers r pb db p)).kvs)
          then none
          else last_put k (log_puts pb p.log) (contents db k))
  unfolding persist_raft_state write_batch
  contents-persist_raft_state db p k h =
      write_ok (persist_numbers r pb db p) _ k (sure.writes _ _)
      ∙ apply_batch (log_puts pb p.log) _ (contents (persist_numbers r pb db p)) k
      ∙ ap
          (λ o.
            if has_key k (map (λ e. e.0) (scan_log r pb (persist_numbers r pb db p)).kvs)
            then none
            else last_put k (log_puts pb p.log) o)
          (contents-persist_numbers db p k h)

  has_key-Holds :
      (k v : Bytes) (kvs : List (Bytes × Bytes))
      → Holds k v kvs
      → has_key k (map (λ e. e.0) kvs) ≡ true
  unfolding has_key
  has_key-Holds k v [] h = absurd h
  has_key-Holds k v ((j, w) ∷ kvs) (inl e) = rw ((bytes_eq_iff j k).1 (sym e.0))
  has_key-Holds k v ((j, w) ∷ kvs) (inr h) = ground (arith, has_key-Holds k v kvs h)

  last_put-old :
      (k : Bytes) (puts : List (Bytes × Bytes)) (a b : Option Bytes)
      → a ≡ b
      → last_put k puts a ≡ last_put k puts b
  last_put-old k puts a b e = ap (last_put k puts) e

  -- What the scan finds is in the database, and a complete scan finds all of the log.
  pub scan_log_sound :
      (db : Db) (k v : Bytes)
      → Holds k v (scan_log r pb db).kvs
      → (contents db k ≡ some v) × InLog k
  unfolding scan_log engine_scan
  scan_log_sound db k v h =
      let kept =
        Holds-take k v scan_limit _
          (rw (scan_loop-in_range log_end scan_limit (r.seek db log_start)).0 at h) in
      let m =
        (in_range-Holds log_end k v (r.seek db log_start) (r.seek_ascends db log_start)).0 kept in
      let c = seek_holds db log_start k v m.0 in (c.0, (c.1, m.1))

  scan_log_complete :
      (db : Db) (k v : Bytes)
      → InLog k
      → (scan_log r pb db).has_more ≡ false
      → contents db k ≡ some v
      → Holds k v (scan_log r pb db).kvs
  unfolding scan_log
  scan_log_complete db k v h all e =
      (engine_scan-Holds r db log_start log_end scan_limit k v (sure.seeks db log_start) all).1
        (e, h.0, h.1)

  -- A key that the log's put leaves out of a database is absent after it.
  persist_erases :
      (db : Db) (p : Persistent) (k : Bytes)
      → InLog k
      → (scan_log r pb (persist_numbers r pb db p)).has_more ≡ false
      → (contents db k ≡ none → last_put k (log_puts pb p.log) none ≡ none)
      → contents (persist_raft_state r pb db p) k ≡ none
  persist_erases db p k h all keep = elim (Option-cases (contents db k)) [
    | inl e ↦
        contents-persist_raft_state db p k h
        ∙ ground (arith, last_put-old k (log_puts pb p.log) (contents db k) none e, keep e)
    | inr (v, e) ↦
        contents-persist_raft_state db p k h
        ∙ rw (
            has_key-Holds k v _ (
              scan_log_complete (persist_numbers r pb db p) k v h all
                (contents-persist_numbers db p k h ∙ e)))
  ]

  -- A database without log entries reads as an empty log.
  no_log-scans_empty : (db : Db) → HasNoLog r db → (scan_log r pb db).kvs ≡ []
  no_log-scans_empty db none_there =
      Holds-none (scan_log r pb db).kvs
        (λ k v h. let c = scan_log_sound db k v h in none_there k v c.1 c.0)

  -- What a first persist puts is what the database then holds of the log.
  persist_fresh :
      (db : Db) (p : Persistent) (k : Bytes)
      → HasNoLog r db
      → InLog k
      → contents (persist_raft_state r pb db p) k ≡ last_put k (log_puts pb p.log) none
  unfolding has_key last_put
  persist_fresh db p k fresh h =
      contents-persist_raft_state db p k h
      ∙ rw
          (no_log-scans_empty (persist_numbers r pb db p)
            (λ j v g e. fresh j v g (sym (contents-persist_numbers db p j g) ∙ e)))
          (last_put-old k (log_puts pb p.log) (contents db k) none
            (elim (Option-cases (contents db k)) [
              | inl e ↦ e
              | inr (v, e) ↦ absurd (fresh k v h e)
            ]))

  -- On a database where no call fails and that held no log before, the log that a restart finds
  -- after the same state has been persisted twice is empty, if the scan of the second time reaches
  -- the end of the log.
  pub persist_twice-loses_log :
      (db : Db) (p : Persistent)
      → HasNoLog r db
      → (scan_log r pb (persist_numbers r pb (persist_raft_state r pb db p) p)).has_more ≡ false
      → parse_entries pb
          (scan_log r pb (persist_raft_state r pb (persist_raft_state r pb db p) p)).kvs
        ≡ []
  unfolding parse_entries
  persist_twice-loses_log db p fresh all = rw (
      no_log-scans_empty (persist_raft_state r pb (persist_raft_state r pb db p) p) (λ k v h e. cc (
        e,
        persist_erases (persist_raft_state r pb db p) p k h all
            (λ z. sym (persist_fresh db p k fresh h) ∙ z),
      )))
