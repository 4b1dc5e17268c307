-- ===== src/RaftService/Host.antt =====
-- RaftService around one node: its callbacks run against the database and the connections, and
-- messages of peers are dispatched to the node (raft_service.cpp).
use learn_git.RaftService.Recovery.{persist_raft_state, on_apply}
use learn_git.Raft.Replica.{tick, handle_append_entries}
use learn_git.Raft.Node.{
  handle_request_vote, propose, process_request_vote_response, process_append_entries_response,
}
use learn_git.Base.{
  ℕ, List, [], ◌∷◌, Bool, false, Bytes, Option, none, some, if◌then◌else◌, ◌==◌, ◌||◌,
}
use learn_git.Raft.Types.{
  RaftNode, Env, Event, persisted, applied, sent, RaftMessage, request_vote, request_vote_resp,
  append_entries, append_entries_resp, other,
}
use learn_git.Storage.Rocks.{RocksDb}
use learn_git.Kv.Messages.{Protobuf}

-- The node with the address book; `outbox` has the frames handed to connections, newest first,
-- each with the peer it goes to.
pub record Host (r : RocksDb) : Type 0 where
  pub db : r.Db
  pub node : RaftNode
  pub peer_addrs : List (ℕ × Bytes)
  pub connected : List ℕ
  pub outbox : List (ℕ × RaftMessage)

unfoldable pub find_addr : ℕ → List (ℕ × Bytes) → Option Bytes
find_addr id [] = none
find_addr id ((j, addr) ∷ rest) =
    let other_addr = find_addr id rest in if j == id then some addr else other_addr

unfoldable pub has_peer : ℕ → List ℕ → Bool
has_peer id [] = false
has_peer id (j ∷ js) = (j == id) || has_peer id js

-- getLeaderAddr: the address of another node that is known to lead.
unfoldable pub get_leader_addr : RaftNode → List (ℕ × Bytes) → Option Bytes
get_leader_addr n addrs =
    if n.leader_id == 0
    then none
    else if n.leader_id == n.node_id
    then none
    else find_addr n.leader_id addrs

module _ (r : RocksDb) (pb : Protobuf) where
  -- sendRaftRpc: a message to a peer without a connection is dropped.
  unfoldable pub send_raft_rpc : ℕ → RaftMessage → Host r → Host r
  send_raft_rpc peer msg h =
      if has_peer peer h.connected then record h { outbox = (peer, msg) ∷ h.outbox } else h

  -- The three callbacks.
  unfoldable pub on_event : Event → Host r → Host r
  unfolding send_raft_rpc
  on_event (persisted p) h = record h { db = persist_raft_state r pb h.db p }
  on_event (applied index cmd) h = record h { db = on_apply r pb h.db index cmd }
  on_event (sent peer msg) h = send_raft_rpc peer msg h

  -- The node's events are newest first.
  unfoldable pub replay : List Event → Host r → Host r
  unfolding on_event
  replay [] h = h
  replay (e ∷ es) h = on_event e (replay es h)

  -- A call of the node's method runs its callbacks in their order.
  unfoldable pub settle : RaftNode → Host r → Host r
  unfolding replay
  settle n h = replay n.events (record h { node = record n { events = [] } })

  unfoldable pub host_propose : Bytes → Host r → Host r × Bool
  unfolding settle
  host_propose command h = let done = propose command h.node in (settle done.0 h, done.1)

  unfoldable pub host_tick : Env → Host r → Host r
  unfolding settle
  host_tick env h = settle (tick env h.node) h

  -- handleRaftMessage: the answer, if any, goes back on the connection that the request came on.
  unfoldable pub handle_raft_message : Env → RaftMessage → ℕ → Host r → Host r × Option RaftMessage
  unfolding settle
  handle_raft_message env (request_vote req) from h =
      let done = handle_request_vote env req h.node in
      (settle done.0 h, some (request_vote_resp done.1))
  handle_raft_message env (request_vote_resp resp) from h =
      (settle (process_request_vote_response env from resp.term resp.vote_granted h.node) h, none)
  handle_raft_message env (append_entries req) from h =
      let done = handle_append_entries env req h.node in
      (settle done.0 h, some (append_entries_resp done.1))
  handle_raft_message env (append_entries_resp resp) from h = (
    settle (process_append_entries_response from resp.term resp.success resp.match_index h.node) h,
    none,
  )
  handle_raft_message env other from h = (h, none)

  -- onPeerMessage for one message: the same, with the answer sent to the peer's own connection.
  unfoldable pub on_peer_message : Env → RaftMessage → ℕ → Host r → Host r
  unfolding handle_raft_message send_raft_rpc
  on_peer_message env msg from h =
      let done = handle_raft_message env msg from h in
      elim done.1 [ none ↦ done.0 | some answer ↦ send_raft_rpc from answer done.0 ]
