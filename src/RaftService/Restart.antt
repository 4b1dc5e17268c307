-- ===== src/RaftService/Restart.antt =====
-- The term and the vote across a restart: persistRaftState, then recoverRaftState of
-- raft_service.cpp.
use learn_git.Raft.Replica.{load_persisted_state}
use learn_git.RaftService.Numbers.{stoull-to_string}
use learn_git.RaftService.Keys.{encode_log_key, term_key, to_string, vote_key}
use learn_git.Base.{
  List, [], ◌∷◌, true, false, Bytes, Option, some, ◌≡◌, bytes_eq, map, ◌∙◌, Bool-cases, ◌<◌, refl,
  sym, inl, u64, bytes_eq_iff, inr, arith, ap, ltb,
}
use learn_git.RaftService.Loss.{
  InLog, has_key, last_put, apply_batch, scan_log_sound, zero_key-outside,
}
use learn_git.RaftService.Recovery.{
  persist_numbers, persist_raft_state, recover_raft_state, read_number, scan_log, log_puts,
  parse_entries,
}
use learn_git.Storage.Rocks.{RocksDb, Holds}
use learn_git.Storage.Engine.{engine_put, engine_get, write_batch, NeverFails, engine_get-contents}
use learn_git.Kv.Messages.{Protobuf}
use learn_git.Raft.Types.{LogEntry, Persistent, RaftNode}

zero_key-kept :
    (rest : Bytes) (kvs : List (Bytes × Bytes))
    → ((k v : Bytes) → Holds k v kvs → InLog k)
    → has_key (0 ∷ rest) (map (λ e. e.0) kvs) ≡ false
unfolding has_key
zero_key-kept rest [] h = refl
zero_key-kept rest ((j, v) ∷ kvs) h =
    let ne : bytes_eq j (0 ∷ rest) ≡ false = elim (Bool-cases (bytes_eq j (0 ∷ rest))) [
      | inl e ↦ cc (
        zero_key-outside rest j (h j v (inl (refl, refl))),
        (bytes_eq_iff (0 ∷ rest) j).1 (sym ((bytes_eq_iff j (0 ∷ rest)).0 e)),
      )
      | inr f ↦ f
    ] in
    ground (arith, zero_key-kept rest kvs (λ k w g. h k w (inr g)))

zero_key-not_put :
    (rest : Bytes) (puts : List LogEntry) (pb : Protobuf) (o : Option Bytes)
    → last_put (0 ∷ rest) (map (λ e. (encode_log_key e.index, pb.entry_bytes e)) puts) o ≡ o
unfolding last_put encode_log_key bytes_eq
zero_key-not_put rest [] pb o = refl
zero_key-not_put rest (e ∷ es) pb o = zero_key-not_put rest es pb o

zero_key-not_in_log :
    (rest : Bytes) (log : List LogEntry) (pb : Protobuf) (o : Option Bytes)
    → last_put (0 ∷ rest) (log_puts pb log) o ≡ o
unfolding log_puts
zero_key-not_in_log rest [] pb o = unfold last_put in refl
zero_key-not_in_log rest (e ∷ es) pb o = zero_key-not_put rest es pb o

module _ (r : RocksDb) (pb : Protobuf) (sure : NeverFails r) where
  open r use {Db, contents, put_ok, write_ok}

  contents-zero_key :
      (db : Db) (p : Persistent) (rest : Bytes)
      → contents (persist_raft_state r pb db p) (0 ∷ rest)
        ≡ contents (persist_numbers r pb db p) (0 ∷ rest)
  unfolding persist_raft_state write_batch
  contents-zero_key db p rest =
      write_ok (persist_numbers r pb db p) _ (0 ∷ rest) (sure.writes _ _)
      ∙ apply_batch (log_puts pb p.log) _ (contents (persist_numbers r pb db p)) (0 ∷ rest)
      ∙ rw
          (zero_key-kept rest (scan_log r pb (persist_numbers r pb db p)).kvs
            (λ k v h. (scan_log_sound r pb sure (persist_numbers r pb db p) k v h).1))
          (zero_key-not_in_log rest p.log pb _)

  stored_numbers :
      (db : Db) (p : Persistent)
      → (contents (persist_raft_state r pb db p) term_key ≡ some (to_string p.current_term))
        × (contents (persist_raft_state r pb db p) vote_key ≡ some (to_string p.voted_for))
  unfolding persist_numbers engine_put bytes_eq
  stored_numbers db p =
      let first = engine_put r db term_key (to_string p.current_term) in
      (
        contents-zero_key db p _
            ∙ put_ok first.0 vote_key (to_string p.voted_for) term_key (sure.puts _ _ _)
            ∙ put_ok db term_key (to_string p.current_term) term_key (sure.puts _ _ _),
        contents-zero_key db p _
            ∙ put_ok first.0 vote_key (to_string p.voted_for) vote_key (sure.puts _ _ _),
      )

  -- A restart on a database where no call fails gives the node the term and the vote that were
  -- persisted last, whatever the log; the term is positive, and both fit 64 bits.
  pub recover-persist_raft_state :
      (db : Db) (p : Persistent) (n : RaftNode)
      → 0 < p.current_term
      → p.current_term < u64
      → p.voted_for < u64
      → (m : RaftNode) × (recover_raft_state r pb (persist_raft_state r pb db p) n ≡ some m)
        × (m.current_term ≡ p.current_term)
        × (m.voted_for ≡ p.voted_for)
  unfolding recover_raft_state
  recover-persist_raft_state db p n pos ft fv =
      let after = persist_raft_state r pb db p in
      let stored = stored_numbers db p in
      let term : read_number (engine_get r after term_key) ≡ some p.current_term =
        ap read_number (engine_get-contents r sure after term_key ∙ stored.0)
        ∙ unfold read_number in stoull-to_string p.current_term ft in
      let vote : read_number (engine_get r after vote_key) ≡ some p.voted_for =
        ap read_number (engine_get-contents r sure after vote_key ∙ stored.1)
        ∙ unfold read_number in stoull-to_string p.voted_for fv in
      let positive : ltb 0 p.current_term ≡ true = ground arith in
      (
        load_persisted_state p.current_term p.voted_for (parse_entries pb (scan_log r pb after).kvs)
            n,
        rw (term, vote, positive),
        unfold load_persisted_state in refl,
        unfold load_persisted_state in refl,
      )
