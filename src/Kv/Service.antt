-- ===== src/Kv/Service.antt =====
-- KvService (kv_service.cpp): the handlers of client requests, on a server that runs alone or with
-- Raft. Each handler answers once; the answer is its result.
use learn_git.Base.{ℕ, [], false, Bytes, Option, none, some, if◌then◌else◌}
use learn_git.Raft.Types.{is_leader}
use learn_git.Storage.Rocks.{RocksDb}
use learn_git.Storage.Engine.{engine_put, engine_get, engine_del, engine_scan}
use learn_git.Kv.Messages.{
  Protobuf, ErrorCode, ok, key_not_found, not_leader, internal_error, GetRequest, GetResponse,
  PutRequest, WriteResponse, DeleteRequest, ScanRequest, ScanResponse, RpcMessage,
}
use learn_git.RaftService.Host.{Host, get_leader_addr, host_propose}

-- The engine alone (phase 1), or the engine shared with a Raft service (phase 2).
pub data Server (r : RocksDb) : Type 0 where
  alone : r.Db → Server r
  with_raft : Host r → Server r

module _ (r : RocksDb) (pb : Protobuf) where
  abbrev pub database : Server r → r.Db
  database (alone db) = db
  database (with_raft h) = h.db

  -- The address to redirect to: Raft is used, this node does not lead, and the leader is known.
  unfoldable pub redirect : Server r → Option Bytes
  redirect (alone db) = none
  redirect (with_raft h) =
      if is_leader h.node.state then none else get_leader_addr h.node h.peer_addrs

  unfoldable pub read_key : r.Db → GetRequest → GetResponse
  read_key db req = elim (engine_get r db req.key) [
    | some value ↦ record {
      error_code = ok;
      key = req.key;
      value = value;
      call_id = req.call_id;
      correct_leader_addr = [];
    }
    | none ↦ record {
      error_code = key_not_found;
      key = req.key;
      value = [];
      call_id = req.call_id;
      correct_leader_addr = [];
    }
  ]

  unfoldable pub handle_get : Server r → GetRequest → GetResponse
  unfolding redirect read_key
  handle_get s req = elim (redirect s) [
    | some addr ↦ record {
      error_code = not_leader;
      key = req.key;
      value = [];
      call_id = req.call_id;
      correct_leader_addr = addr;
    }
    | none ↦ read_key (database s) req
  ]

  abbrev pub write_answer : ErrorCode → ℕ → Bytes → WriteResponse
  write_answer code call_id addr = record {
    error_code = code;
    call_id = call_id;
    correct_leader_addr = addr;
  }

  -- The branch of handlePut and handleDelete with Raft: the request itself is the command.
  unfoldable pub submit : Host r → RpcMessage → ℕ → Host r × WriteResponse
  unfolding host_propose
  submit h cmd call_id =
      if is_leader h.node.state
      then (let done = host_propose r pb (pb.rpc_bytes cmd) h in
          (done.0, write_answer (if done.1 then ok else internal_error) call_id []))
      else elim (get_leader_addr h.node h.peer_addrs) [
        | some addr ↦ (h, write_answer not_leader call_id addr)
        | none ↦ (h, write_answer internal_error call_id [])
      ]

  unfoldable pub handle_put : Server r → PutRequest → Server r × WriteResponse
  unfolding submit
  handle_put (alone db) req =
      let done = engine_put r db req.key req.value in
      (alone done.0, write_answer (if done.1 then ok else internal_error) req.call_id [])
  handle_put (with_raft h) req =
      let done = submit h (RpcMessage.put_request req) req.call_id in (with_raft done.0, done.1)

  unfoldable pub handle_delete : Server r → DeleteRequest → Server r × WriteResponse
  unfolding submit
  handle_delete (alone db) req =
      let done = engine_del r db req.key in
      (alone done.0, write_answer (if done.1 then ok else key_not_found) req.call_id [])
  handle_delete (with_raft h) req =
      let done = submit h (RpcMessage.delete_request req) req.call_id in (with_raft done.0, done.1)

  unfoldable pub read_range : r.Db → ScanRequest → ScanResponse
  read_range db req =
      let found = engine_scan r db req.start_key req.end_key req.limit in
      record {
        error_code = ok;
        kvs = found.kvs;
        has_more = found.has_more;
        next_start_key = found.next_key;
        call_id = req.call_id;
        correct_leader_addr = [];
      }

  unfoldable pub handle_scan : Server r → ScanRequest → ScanResponse
  unfolding redirect read_range
  handle_scan s req = elim (redirect s) [
    | some addr ↦ record {
      error_code = not_leader;
      kvs = [];
      has_more = false;
      next_start_key = [];
      call_id = req.call_id;
      correct_leader_addr = addr;
    }
    | none ↦ read_range (database s) req
  ]

  -- dispatchClientRpc: the four requests are answered, and any other message is ignored.
  unfoldable pub dispatch_client_rpc : Server r → RpcMessage → Server r × Option RpcMessage
  unfolding handle_get handle_put handle_delete handle_scan
  dispatch_client_rpc s (RpcMessage.get_request req) =
      (s, some (RpcMessage.get_response (handle_get s req)))
  dispatch_client_rpc s (RpcMessage.put_request req) =
      let done = handle_put s req in (done.0, some (RpcMessage.put_response done.1))
  dispatch_client_rpc s (RpcMessage.delete_request req) =
      let done = handle_delete s req in (done.0, some (RpcMessage.delete_response done.1))
  dispatch_client_rpc s (RpcMessage.scan_request req) =
      (s, some (RpcMessage.scan_response (handle_scan s req)))
  dispatch_client_rpc s _ = (s, none)
