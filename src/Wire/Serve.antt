-- ===== src/Wire/Serve.antt =====
-- DataServer::onMessage (data_node/data_server.cpp): the frames that have arrived, each handed to
-- Raft or to the key-value service.
use mathlib.Core.List.{append-nil}
use learn_git.Wire.Reading.{read_one_frame}
use learn_git.Wire.Frames.{read_frames, next_frame, waits, frame_bytes}
use learn_git.Base.{
  ℕ, suc, List, [], ◌∷◌, ◌++◌, Bytes, Option, none, some, ◌>>=◌, ◌==◌, if◌then◌else◌, length, ◌+◌,
  ◌<◌, ◌^◌, ◌≡◌,
}
use learn_git.Raft.Types.{RaftMessage, request_vote, append_entries, Env}
use learn_git.Storage.Rocks.{RocksDb}
use learn_git.Kv.Messages.{Protobuf, RpcMessage}
use learn_git.Kv.Service.{Server, alone, with_raft, dispatch_client_rpc}
use learn_git.RaftService.Host.{Host, handle_raft_message}

-- What is sent back on the connection.
pub data Answer : Type 0 where
  raft_answer : RaftMessage → Answer
  client_answer : RpcMessage → Answer

unfoldable pub from_node : RaftMessage → ℕ
from_node (request_vote req) = req.candidate_id
from_node (append_entries req) = req.leader_id
from_node _ = 0

abbrev pub raft_reply : Option RaftMessage → List Answer
raft_reply none = []
raft_reply (some msg) = raft_answer msg ∷ []

abbrev pub client_reply : Option RpcMessage → List Answer
client_reply none = []
client_reply (some msg) = client_answer msg ∷ []

module _ (r : RocksDb) (pb : Protobuf) where
  abbrev serve_raft : Env → Host r → Option RaftMessage → Server r × List Answer
  serve_raft env h none = (with_raft h, [])
  serve_raft env h (some msg) =
      let done = handle_raft_message r pb env msg (from_node msg) h in
      (with_raft done.0, raft_reply done.1)

  abbrev serve_client : Server r → Option RpcMessage → Server r × List Answer
  serve_client s none = (s, [])
  serve_client s (some msg) =
      let done = dispatch_client_rpc r pb s msg in (done.0, client_reply done.1)

  -- A payload that does not parse is dropped.
  unfoldable pub serve_frame : Env → Server r → ℕ → Bytes → Server r × List Answer
  serve_frame env (alone db) type payload = serve_client (alone db) (pb.parse_rpc payload)
  serve_frame env (with_raft h) type payload =
      if type == 1
      then serve_raft env h (pb.parse_raft payload)
      else serve_client (with_raft h) (pb.parse_rpc payload)

  -- `clock` has the readings for the frames to come.
  unfoldable pub serve_frames : (ℕ → Env) → ℕ → Server r → List (ℕ × Bytes) → Server r × List Answer
  unfolding serve_frame
  serve_frames clock i s [] = (s, [])
  serve_frames clock i s ((type, payload) ∷ fs) =
      let done = serve_frame (clock i) s type payload in
      let later = serve_frames clock (suc i) done.0 fs in (later.0, done.1 ++ later.1)

  -- The server, the answers and the bytes left in the buffer.
  unfoldable pub on_message :
      (ℕ → Env) → Server r → Bytes → Option ((Server r × List Answer) × Bytes)
  unfolding serve_frames
  on_message clock s buf = do
    parsed ← read_frames buf
    some (serve_frames clock 0 s parsed.0, parsed.1)

  -- A message of a client that arrives in one frame, with the beginning of a next one after it, is
  -- handed to the dispatcher once, and its answer goes back on the connection.
  pub on_message_client :
      (clock : ℕ → Env) (s : Server r) (msg : RpcMessage) (tail : Bytes)
      → length (pb.rpc_bytes msg) + 5 < 2 ^ 32
      → next_frame tail ≡ waits
      → on_message clock s (frame_bytes 0 (pb.rpc_bytes msg) ++ tail)
        ≡ some (
          ((dispatch_client_rpc r pb s msg).0, client_reply (dispatch_client_rpc r pb s msg).1),
          tail,
        )
  unfolding on_message serve_frames serve_frame
  on_message_client clock (alone db) msg tail fit e =
      rw (read_one_frame 0 (pb.rpc_bytes msg) tail fit e, pb.parse_rpc-rpc_bytes msg)
        (rw (append-nil (client_reply (dispatch_client_rpc r pb (alone db) msg).1)))
  on_message_client clock (with_raft h) msg tail fit e =
      rw (read_one_frame 0 (pb.rpc_bytes msg) tail fit e, pb.parse_rpc-rpc_bytes msg)
        (rw (append-nil (client_reply (dispatch_client_rpc r pb (with_raft h) msg).1)))
