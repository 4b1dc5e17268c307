-- ===== src/Kv/Answers.antt =====
-- What a client is told, and when (kv_service.cpp).
use learn_git.Raft.Proposing.{propose-Proposed, propose_accepts}
use learn_git.Base.{
  ℕ, List, [], ◌∷◌, ◌++◌, true, false, Bytes, Option, none, some, ◌≡◌, arith, if◌then◌else◌, refl,
  bytes_eq, ◌∙◌, ap,
}
use learn_git.Raft.Types.{RaftNode, Event, persisted, applied, sent, is_leader}
use learn_git.Raft.Node.{propose, proposed_entry}
use learn_git.Storage.Rocks.{RocksDb}
use learn_git.Storage.Engine.{NeverFails, engine_get-contents, engine_put, engine_del}
use learn_git.Kv.Messages.{
  Protobuf, ErrorCode, ok, key_not_found, not_leader, internal_error, GetRequest, GetResponse,
  PutRequest, WriteResponse, DeleteRequest, RpcMessage,
}
use learn_git.RaftService.Host.{Host, get_leader_addr, replay, settle}
use learn_git.Kv.Service.{
  Server, alone, with_raft, handle_get, handle_put, handle_delete, dispatch_client_rpc, submit,
  write_answer,
}

-- The answer is of the request's kind and carries its call id.
abbrev pub Answers : RpcMessage → Option RpcMessage → Type 0
Answers (RpcMessage.get_request q) (some (RpcMessage.get_response a)) = a.call_id ≡ q.call_id
Answers (RpcMessage.put_request q) (some (RpcMessage.put_response a)) = a.call_id ≡ q.call_id
Answers (RpcMessage.delete_request q) (some (RpcMessage.delete_response a)) = a.call_id ≡ q.call_id
Answers (RpcMessage.scan_request q) (some (RpcMessage.scan_response a)) = a.call_id ≡ q.call_id
Answers (RpcMessage.get_response q) none = Unit {0}
Answers (RpcMessage.put_response q) none = Unit {0}
Answers (RpcMessage.delete_response q) none = Unit {0}
Answers (RpcMessage.scan_response q) none = Unit {0}
Answers _ _ = ⊥

module _ (r : RocksDb) (pb : Protobuf) where
  -- Every request is answered once, in its own kind and under its own call id, on every branch;
  -- any other message gets no answer.
  pub dispatch_client_rpc-Answers :
      (s : Server r) (msg : RpcMessage) → Answers msg (dispatch_client_rpc r pb s msg).1
  unfolding dispatch_client_rpc
  dispatch_client_rpc-Answers s (RpcMessage.get_request q) = ground arith
  dispatch_client_rpc-Answers (alone db) (RpcMessage.put_request q) = refl
  dispatch_client_rpc-Answers (with_raft h) (RpcMessage.put_request q) = ground arith
  dispatch_client_rpc-Answers (alone db) (RpcMessage.delete_request q) = refl
  dispatch_client_rpc-Answers (with_raft h) (RpcMessage.delete_request q) = ground arith
  dispatch_client_rpc-Answers s (RpcMessage.scan_request q) = ground arith
  dispatch_client_rpc-Answers s (RpcMessage.get_response q) = tt
  dispatch_client_rpc-Answers s (RpcMessage.put_response q) = tt
  dispatch_client_rpc-Answers s (RpcMessage.delete_response q) = tt
  dispatch_client_rpc-Answers s (RpcMessage.scan_response q) = tt

  -- A server that runs Raft and does not lead changes nothing on a write: it names the leader if
  -- it knows another one, and otherwise reports an internal error.
  pub write_on_follower :
      (h : Host r) (put_req : PutRequest) (del_req : DeleteRequest)
      → is_leader h.node.state ≡ false
      → let code = elim (get_leader_addr h.node h.peer_addrs) as (λ _. ErrorCode) [
        | none ↦ internal_error
        | some _ ↦ not_leader
      ] in
        ((handle_put r pb (with_raft h) put_req).0 ≡ with_raft h)
        × ((handle_put r pb (with_raft h) put_req).1.error_code ≡ code)
        × ((handle_delete r pb (with_raft h) del_req).0 ≡ with_raft h)
        × ((handle_delete r pb (with_raft h) del_req).1.error_code ≡ code)
  unfolding handle_put handle_delete
  write_on_follower h put_req del_req f = ground arith

  replay-node : (es : List Event) (h : Host r) → (replay r pb es h).node ≡ h.node
  unfolding replay
  replay-node [] h = refl
  replay-node (persisted p ∷ es) h = replay-node es h
  replay-node (applied i c ∷ es) h = replay-node es h
  replay-node (sent peer m ∷ es) h = ground (arith, replay-node es h)

  settle-node :
      (next : RaftNode) (h : Host r) → (settle r pb next h).node ≡ record next { events = [] }
  unfolding settle
  settle-node next h = replay-node next.events (record h { node = record next { events = [] } })

  submit_leads :
      (h : Host r) (cmd : RpcMessage) (call_id : ℕ)
      → is_leader h.node.state ≡ true
      → submit r pb h cmd call_id
        ≡ (settle r pb (propose (pb.rpc_bytes cmd) h.node).0 h, write_answer r pb ok call_id [])
  unfolding submit
  submit_leads h cmd call_id l = ground (arith, propose_accepts (pb.rpc_bytes cmd) h.node l)

  -- A leader answers a put with OK as soon as the command is the last entry of its own log: no
  -- entry has been committed or applied in between.
  pub put_acknowledged_uncommitted :
      (h : Host r) (req : PutRequest)
      → is_leader h.node.state ≡ true
      → (h' : Host r) × ((handle_put r pb (with_raft h) req).0 ≡ with_raft h')
        × ((handle_put r pb (with_raft h) req).1.error_code ≡ ok)
        × (h'.node.log
            ≡ h.node.log ++ proposed_entry (pb.rpc_bytes (RpcMessage.put_request req)) h.node ∷ [])
        × (h'.node.commit_index ≡ h.node.commit_index)
        × (h'.node.last_applied ≡ h.node.last_applied)
  unfolding handle_put
  put_acknowledged_uncommitted h req l =
      let command = pb.rpc_bytes (RpcMessage.put_request req) in
      let next = (propose command h.node).0 in
      let p = propose-Proposed command h.node l in
      let s = submit_leads h (RpcMessage.put_request req) req.call_id l in
      let n = settle-node next h in
      (
        settle r pb next h,
        ap (λ (x : Host r × WriteResponse). with_raft x.0) s,
        ap (λ (x : Host r × WriteResponse). x.1.error_code) s,
        ap (λ (m : RaftNode). m.log) n ∙ p.log,
        ap (λ (m : RaftNode). m.commit_index) n ∙ p.commit,
        ap (λ (m : RaftNode). m.last_applied) n ∙ p.last_applied,
      )

module _ (r : RocksDb) (pb : Protobuf) (sure : NeverFails r) where
  open r use {Db, contents}

  -- The answer to a get, from what the database holds under the key.
  abbrev pub answer_of : Option Bytes → GetRequest → GetResponse
  answer_of none req = record {
    error_code = key_not_found;
    key = req.key;
    value = [];
    call_id = req.call_id;
    correct_leader_addr = [];
  }
  answer_of (some value) req = record {
    error_code = ok;
    key = req.key;
    value = value;
    call_id = req.call_id;
    correct_leader_addr = [];
  }

  pub handle_get-contents :
      (db : Db) (req : GetRequest)
      → handle_get r pb (alone db) req ≡ answer_of (contents db req.key) req
  unfolding handle_get
  handle_get-contents db req = ground (arith, engine_get-contents r sure db req.key)

  -- On a server without Raft, on a database where no call fails, a get after a put returns the
  -- value that was put under its key, and is answered as before under any other key; so too after a
  -- delete, where the key is then missing.
  pub get_after_write :
      (db : Db) (put_req : PutRequest) (del_req : DeleteRequest) (req : GetRequest)
      → (handle_get r pb (handle_put r pb (alone db) put_req).0 req ≡ (
          if bytes_eq put_req.key req.key
          then answer_of (some put_req.value) req
          else handle_get r pb (alone db) req))
        × (handle_get r pb (handle_delete r pb (alone db) del_req).0 req ≡ (
            if bytes_eq del_req.key req.key
            then answer_of none req
            else handle_get r pb (alone db) req))
  unfolding handle_put handle_delete engine_put engine_del
  get_after_write db put_req del_req req =
      let before = handle_get-contents db req in
      (
        handle_get-contents (engine_put r db put_req.key put_req.value).0 req
            ∙ rw (r.put_ok db put_req.key put_req.value req.key (sure.puts _ _ _))
                (ground (arith, before)),
        handle_get-contents (engine_del r db del_req.key).0 req
            ∙ rw (r.delete_ok db del_req.key req.key (sure.deletes _ _)) (ground (arith, before)),
      )

  -- Without Raft, on a database where no call fails, a delete of a key that is not there is answered
  -- with OK.
  pub delete_missing_is_ok :
      (db : Db) (req : DeleteRequest)
      → contents db req.key ≡ none
      → (handle_delete r pb (alone db) req).1.error_code ≡ ok
  unfolding handle_delete engine_del
  delete_missing_is_ok db req e = rw (sure.deletes db req.key)
