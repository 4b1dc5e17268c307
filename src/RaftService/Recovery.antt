-- ===== src/RaftService/Recovery.antt =====
-- persistRaftState, recoverRaftState and onApply of raft_service.cpp.
use learn_git.Raft.Replica.{load_persisted_state}
use learn_git.Storage.Engine.{
  ScanResult, write_batch, engine_put, engine_del, engine_scan, engine_get,
}
use learn_git.RaftService.Keys.{
  stoull, term_key, encode_log_key, to_string, log_start, log_end, vote_key,
}
use learn_git.Base.{
  ◌>>=◌, ℕ, List, [], ◌∷◌, Bytes, Option, none, some, map, if◌then◌else◌, ltb, ◌||◌, not, is_empty,
}
use learn_git.Storage.Rocks.{RocksDb}
use learn_git.Raft.Types.{LogEntry, Persistent, RaftNode}
use learn_git.Kv.Messages.{Protobuf, RpcMessage}

-- The entries after the sentinel, keyed by their index field.
unfoldable pub log_puts : Protobuf → List LogEntry → List (Bytes × Bytes)
log_puts pb [] = []
log_puts pb (sentinel ∷ log) = map (λ e. (encode_log_key e.index, pb.entry_bytes e)) log

-- Parses each value, and leaves out what does not parse.
unfoldable pub parse_entries : Protobuf → List (Bytes × Bytes) → List LogEntry
parse_entries pb [] = []
parse_entries pb ((k, v) ∷ kvs) =
    let rest = parse_entries pb kvs in elim (pb.parse_entry v) [ none ↦ rest | some e ↦ e ∷ rest ]

-- A number under a key: 0 if it is missing, `none` if std::stoull throws.
unfoldable pub read_number : Option Bytes → Option ℕ
read_number none = some 0
read_number (some text) = stoull text

abbrev pub scan_limit : ℕ
scan_limit = 100000

module _ (r : RocksDb) (pb : Protobuf) where
  open r use {Db}

  unfoldable pub scan_log : Db → ScanResult
  scan_log db = engine_scan r db log_start log_end scan_limit

  -- The two numbers, written before the scan.
  unfoldable pub persist_numbers : Db → Persistent → Db
  persist_numbers db p =
      (engine_put r (engine_put r db term_key (to_string p.current_term)).0 vote_key
        (to_string p.voted_for)).0

  -- The keys that the scan finds are deleted in the batch, after the puts.
  unfoldable pub persist_raft_state : Db → Persistent → Db
  persist_raft_state db p =
      let db' = persist_numbers db p in
      (write_batch r db' (log_puts pb p.log) (map (λ e. e.0) (scan_log db').kvs)).0

  -- The node is told what was found, if anything was; `none` is an exception.
  unfoldable pub recover_raft_state : Db → RaftNode → Option RaftNode
  recover_raft_state db n = do
    term ← read_number (engine_get r db term_key)
    voted_for ← read_number (engine_get r db vote_key)
    let log = parse_entries pb (scan_log db).kvs
    some (if ltb 0 term || not (is_empty log) then load_persisted_state term voted_for log n else n)

  -- A committed command is a serialised write request; anything else is ignored.
  unfoldable pub apply_message : Db → RpcMessage → Db
  apply_message db (RpcMessage.put_request req) = (engine_put r db req.key req.value).0
  apply_message db (RpcMessage.delete_request req) = (engine_del r db req.key).0
  apply_message db _ = db

  unfoldable pub on_apply : Db → ℕ → Bytes → Db
  on_apply db index cmd = elim (pb.parse_rpc cmd) [ none ↦ db | some msg ↦ apply_message db msg ]
