-- ===== src/RaftService/Examples.antt =====
-- The theorems about the state on disk, on a database in memory.
use learn_git.Storage.Engine.{engine_scan, scan_loop, engine_put, write_batch, batch}
use learn_git.RaftService.Restart.{recover-persist_raft_state}
use learn_git.RaftService.Loss.{HasNoLog, persist_twice-loses_log}
use learn_git.Raft.Node.{init}
use learn_git.RaftService.Keys.{encode_log_key}
use learn_git.RaftService.Recovery.{
  parse_entries, recover_raft_state, persist_raft_state, scan_log, persist_numbers, log_puts,
}
use learn_git.Base.{[], ◌∷◌, some, ◌≡◌, refl, arith, bytes_lt, bytes_eq, List, map}
use learn_git.Raft.Types.{empty_entry, Persistent, RaftNode}
use learn_git.Storage.Memory.{memory_db, table, lookup, from, write_all}
use learn_git.Storage.Examples.{memory_db-NeverFails, three_keys}
use learn_git.RaftService.Machine.{apply_commands, apply_commands-last_write}
use learn_git.Kv.Messages.{RpcMessage}
use learn_git.Kv.Plain.{plain}

-- Term 3, a vote for node 2, and one entry.
abbrev saved : Persistent
saved = record {
  current_term = 3;
  voted_for = 2;
  log = empty_entry ∷ record { term = 3; index = 1; command = 7 ∷ [] } ∷ [];
}

recover-persist_raft_state_example :
    (m : RaftNode) × (recover_raft_state memory_db plain
        (persist_raft_state memory_db plain [] saved)
        (init (record { now = 0; timeout = 150 }) 1 (2 ∷ []))
      ≡ some m)
    × (m.current_term ≡ 3)
    × (m.voted_for ≡ 2)
recover-persist_raft_state_example =
    recover-persist_raft_state memory_db plain memory_db-NeverFails [] saved
      (init (record { now = 0; timeout = 150 }) 1 (2 ∷ [])) (omega arith) (omega arith)
      (omega arith)

no_log : HasNoLog memory_db []
unfolding table lookup
no_log k v h e = cc

persist_twice-loses_log_example :
    parse_entries plain
      (scan_log memory_db plain (
        persist_raft_state memory_db plain (persist_raft_state memory_db plain [] saved) saved)).kvs
    ≡ []
unfolding scan_log engine_scan scan_loop from table persist_numbers engine_put persist_raft_state
    write_batch write_all batch log_puts bytes_lt bytes_eq encode_log_key
persist_twice-loses_log_example =
    persist_twice-loses_log memory_db plain memory_db-NeverFails [] saved no_log refl

-- Two puts of one key around a delete of another.
abbrev three_writes : List RpcMessage
three_writes =
    RpcMessage.put_request (record { key = b'a' ∷ []; value = 1 ∷ []; call_id = 1 })
    ∷ RpcMessage.delete_request (record { key = b'b' ∷ []; call_id = 2 })
    ∷ RpcMessage.put_request (record { key = b'a' ∷ []; value = 2 ∷ []; call_id = 3 })
    ∷ []

apply_commands-last_write_example :
    memory_db.contents
      (apply_commands memory_db plain three_keys 1 (map plain.rpc_bytes three_writes))
      (b'a' ∷ [])
    ≡ some (2 ∷ [])
unfolding bytes_eq
apply_commands-last_write_example =
    apply_commands-last_write memory_db plain memory_db-NeverFails three_writes three_keys 1
      (b'a' ∷ [])
