-- ===== src/Client/Alone.antt =====
-- The client, connected to a data node that runs alone: the code on both sides of the connection.
use learn_git.Config.Text.{ℤ, split_at, stoi, to_u16, pos}
use mathlib.Core.List.{append-nil}
use learn_git.RaftService.Keys.{to_string}
use learn_git.Client.Addresses.{Lacks, split_at-append, stoi-to_string}
use learn_git.Wire.Reading.{read_length-be_bytes}
use learn_git.Kv.Service.{Server, dispatch_client_rpc}
use learn_git.Raft.Types.{Env}
use learn_git.Wire.Serve.{
  Answer, client_answer, raft_answer, on_message, on_message_client, client_reply,
}
use learn_git.Wire.Frames.{frame_bytes, read_length, next_frame}
use learn_git.Storage.Rocks.{RocksDb}
use learn_git.Base.{
  Bytes, List, ℕ, ◌∷◌, length, ◌+◌, ◌++◌, Option, ◌<◌, [], some, ◌^◌, ◌≡◌, none, arith, ltb, false,
  ap, take_all, ◌%◌, subst, ◌∙◌, refl, is_empty,
}
use learn_git.Kv.Messages.{Protobuf, RpcMessage}
use learn_git.Client.KvClient.{
  KvClient, connect, call, attempt, answered, redirected_to, parsed, with_router,
}
use learn_git.Client.Redirects.{call_sends, send_to_addr-ends, same_router}
use learn_git.Client.Link.{Net, send_raw, read_response, received}
use learn_git.Pd.Router.{set_direct_node, get_addr_for_key}

abbrev pub answer_frame : Protobuf → Answer → Bytes
answer_frame pb (client_answer msg) = frame_bytes 0 (pb.rpc_bytes msg)
answer_frame pb (raft_answer msg) = frame_bytes 1 (pb.raft_bytes msg)

unfoldable pub answer_frames : Protobuf → List Answer → Bytes
unfolding frame_bytes
answer_frames pb [] = []
answer_frames pb (a ∷ rest) = answer_frame pb a ++ answer_frames pb rest

abbrev pub get_message : Bytes → RpcMessage
get_message key = RpcMessage.get_request (record { key = key; call_id = 1 })

-- The message fits a frame.
abbrev pub Fits : Protobuf → RpcMessage → Type 0
Fits pb msg = length (pb.rpc_bytes msg) + 5 < 2 ^ 32

pub read_response-frame_bytes :
    (type : ℕ) (payload : Bytes)
    → length payload + 5 < 2 ^ 32
    → read_response (frame_bytes type payload) ≡ some payload
unfolding read_response frame_bytes
read_response-frame_bytes type payload fit =
    let len : read_length (frame_bytes type payload) ≡ length payload =
      read_length-be_bytes (length payload) (type ∷ payload) (omega arith) in
    let fits : ltb (length (frame_bytes type payload)) (5 + length payload) ≡ false =
      ground arith in
    rw (len, fits) (ap some (take_all (length payload) payload (omega arith)))

pub attempt_sends :
    (net : Net) (pb : Protobuf) (w next : net.World) (ip rest : Bytes) (port : ℤ)
    (req answer : RpcMessage)
    → split_at b':' (ip ++ b':' ∷ rest) ≡ some (ip, rest)
    → stoi rest ≡ some port
    → send_raw net w ip (to_u16 port) (pb.rpc_bytes req) ≡ (next, some (pb.rpc_bytes answer))
    → attempt net pb w (ip ++ b':' ∷ rest) req ≡ (next, answered answer)
unfolding attempt
attempt_sends net pb w next ip rest port req answer cut number sent =
    let read : parsed pb (some (pb.rpc_bytes answer)) ≡ answered answer =
      rw (parsed, pb.parse_rpc-rpc_bytes answer) refl in
    rw (attempt, cut, number)
      (ap (λ (x : net.World × Option Bytes). (x.0, parsed pb x.1)) sent ∙ ap (λ m. (next, m)) read)

written : (ip rest : Bytes) → is_empty (ip ++ b':' ∷ rest) ≡ false
written [] rest = refl
written (c ∷ ip) rest = refl

module _ (r : RocksDb) (pb : Protobuf) (clock : ℕ → Env) where
  abbrev served : Server r → Option ((Server r × List Answer) × Bytes) → Server r × Option Bytes
  served s none = (s, none)
  served s (some ((next, answers), left)) = (next, some (answer_frames pb answers))

  -- Every address leads to the one node, which starts on an empty buffer for each connection.
  abbrev pub node_net : Net
  node_net = record {
    World = Server r;
    talk = λ s ip port sent. served s (on_message r pb clock s sent);
  }

  pub send_raw-answered :
      (s next : Server r) (ip : Bytes) (port : ℕ) (req answer : RpcMessage)
      → Fits pb req
      → Fits pb answer
      → dispatch_client_rpc r pb s req ≡ (next, some answer)
      → send_raw node_net s ip port (pb.rpc_bytes req) ≡ (next, some (pb.rpc_bytes answer))
  unfolding send_raw answer_frames
  send_raw-answered s next ip port req answer fit fit' e =
      let sent = frame_bytes 0 (pb.rpc_bytes req) in
      let back = frame_bytes 0 (pb.rpc_bytes answer) in
      let framed = on_message_client r pb clock s req [] fit (unfold next_frame in refl) in
      let bare =
        subst
          (λ b.
            on_message r pb clock s b
            ≡ some (
              ((dispatch_client_rpc r pb s req).0, client_reply (dispatch_client_rpc r pb s req).1),
              [],
            ))
          (append-nil sent) framed in
      let here =
        bare ∙ ap (λ (d : Server r × Option RpcMessage). some ((d.0, client_reply d.1), [])) e in
      ap (λ x. ((served s x).0, received (served s x).1)) here
      ∙ ap (λ b. (next, read_response b)) (append-nil back)
      ∙ ap (λ x. (next, x)) (read_response-frame_bytes 0 (pb.rpc_bytes answer) fit')

  -- The same for the address that connect has written.
  attempt-answered :
      (s next : Server r) (ip : Bytes) (port : ℕ) (req answer : RpcMessage)
      → Lacks b':' ip
      → port < 2 ^ 16
      → Fits pb req
      → Fits pb answer
      → dispatch_client_rpc r pb s req ≡ (next, some answer)
      → attempt node_net pb s (ip ++ b':' ∷ to_string port) req ≡ (next, answered answer)
  attempt-answered s next ip port req answer plain_ip small fit fit' e =
      attempt_sends node_net pb s next ip (to_string port) (pos port) req answer
        (split_at-append b':' ip (to_string port) plain_ip) (stoi-to_string port (omega arith))
        (send_raw-answered s next ip (port % 2 ^ 16) req answer fit fit' e)

  -- A call of a connected client.
  pub call-answered :
      (s next : Server r) (c : KvClient) (ip : Bytes) (port : ℕ) (key : Bytes)
      (req answer : RpcMessage)
      → Lacks b':' ip
      → port < 2 ^ 16
      → Fits pb req
      → Fits pb answer
      → dispatch_client_rpc r pb s req ≡ (next, some answer)
      → redirected_to answer ≡ none
      → call node_net pb s (connect ip port c) key req
        ≡ ((next, connect ip port c), answered answer)
  unfolding connect set_direct_node get_addr_for_key
  call-answered s next c ip port key req answer plain_ip small fit fit' e ends =
      let cc = connect ip port c in
      let addr = ip ++ b':' ∷ to_string port in
      let one = attempt-answered s next ip port req answer plain_ip small fit fit' e in
      let two = send_to_addr-ends node_net pb 2 s next cc.default_router addr req answer one ends in
      call_sends node_net pb s cc cc.default_router key req refl (written ip (to_string port))
      ∙ ap (λ x. ((x.0.0, with_router cc.router x.0.1 cc), x.1)) two
      ∙ ap (λ x. ((next, x), answered answer)) (same_router cc cc.default_router refl)
