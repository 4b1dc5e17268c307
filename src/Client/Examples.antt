-- ===== src/Client/Examples.antt =====
-- The theorems about the client, on a network of two nodes and on a node that runs alone.
use learn_git.Client.ReadBack.{get_after_put}
use learn_git.Storage.Examples.{three_keys, memory_db-NeverFails}
use learn_git.Kv.Service.{alone}
use learn_git.Storage.Memory.{memory_db}
use learn_git.Kv.Plain.Sizes.{
  plain_put_answer_size, plain_put_size, plain_get_size, plain_found_size,
}
use learn_git.Pd.Router.{get_addr_for_key, set_direct_node}
use learn_git.RaftService.Keys.{to_string}
use learn_git.Wire.Frames.{frame_bytes}
use learn_git.Config.Text.{split_at, stoi, pos}
use learn_git.Kv.Messages.{WriteResponse, RpcMessage, ok}
use learn_git.Base.{
  Bytes, ℕ, ◌∷◌, Option, ◌+◌, [], some, suc, ◌++◌, zero, ◌≡◌, drop, ap, ◌∙◌, ◌<◌, ◌^◌, ◌%◌, ◌≤◌,
  arith, subst, sym, true, refl, bytes_eq,
}
use learn_git.Client.KvClient.{
  put, KvClient, new_client, connect, get, del, scan, result, attempt, answered,
}
use learn_git.Client.Link.{Net, send_raw, read_response}
use learn_git.Client.Redirects.{elsewhere, scan_elsewhere, put_follows_redirect}
use learn_git.Client.Alone.{Fits, attempt_sends, read_response-frame_bytes, node_net}
use learn_git.Client.Tries.{counting, at_most_three_tries}
use learn_git.RaftService.Keys.{read_digits}
use learn_git.Kv.Plain.{plain}

abbrev leader_addr : Bytes
leader_addr = b'l' ∷ b':' ∷ b'2' ∷ []

abbrev accepted : WriteResponse
accepted = record { error_code = ok; call_id = 1; correct_leader_addr = [] }

-- What the node at a port answers: the one at 1 names the one at 2 as the leader.
abbrev reply : ℕ → Option RpcMessage → RpcMessage
reply (suc zero) (some (RpcMessage.put_request m)) =
    RpcMessage.put_response (elsewhere 1 leader_addr)
reply (suc zero) (some (RpcMessage.delete_request m)) =
    RpcMessage.delete_response (elsewhere 1 leader_addr)
reply (suc zero) (some (RpcMessage.scan_request m)) =
    RpcMessage.scan_response (scan_elsewhere 1 leader_addr)
reply _ _ = RpcMessage.put_response accepted

abbrev two_nodes : Net
two_nodes = record {
  World = ℕ;
  talk = λ w ip port sent.
      (w + 1, some (frame_bytes 0 (plain.rpc_bytes (reply port (plain.parse_rpc (drop 5 sent))))));
}

replied :
    (w port : ℕ) (ip : Bytes) (req : RpcMessage)
    → Fits plain (reply port (some req))
    → send_raw two_nodes w ip port (plain.rpc_bytes req)
      ≡ (w + 1, some (plain.rpc_bytes (reply port (some req))))
unfolding send_raw
replied w port ip req fit =
    let back = plain.rpc_bytes (reply port (some req)) in
    ap (λ m. (w + 1, read_response (frame_bytes 0 (plain.rpc_bytes (reply port m)))))
      (plain.parse_rpc-rpc_bytes req)
    ∙ ap (λ x. (w + 1, x)) (read_response-frame_bytes 0 back fit)

abbrev client : KvClient
client = connect (b'f' ∷ []) 1 new_client

two_nodes-attempt :
    (w : ℕ) (ip number : Bytes) (port : ℕ) (req : RpcMessage)
    → split_at b':' (ip ++ b':' ∷ number) ≡ some (ip, number)
    → stoi number ≡ some (pos port)
    → port < 2 ^ 16
    → Fits plain (reply port (some req))
    → attempt two_nodes plain w (ip ++ b':' ∷ number) req
      ≡ (w + 1, answered (reply port (some req)))
two_nodes-attempt w ip number port req cut read small fit =
    let same : port % 2 ^ 16 ≡ port = omega arith in
    attempt_sends two_nodes plain w (w + 1) ip number (pos port) req (reply port (some req)) cut
      read
      (subst
        (λ n.
          send_raw two_nodes w ip n (plain.rpc_bytes req)
          ≡ (w + 1, some (plain.rpc_bytes (reply port (some req)))))
        (sym same) (replied w port ip req fit))

put_follows_redirect_example :
    put two_nodes plain 0 client (b'k' ∷ []) (7 ∷ [])
    ≡ ((2, connect (b'l' ∷ []) 2 new_client), result true)
unfolding connect to_string split_at stoi get_addr_for_key set_direct_node read_digits
put_follows_redirect_example =
    put_follows_redirect two_nodes plain 0 1 2 client client.default_router (b'k' ∷ []) (7 ∷ [])
      leader_addr accepted refl refl refl
      (two_nodes-attempt 0 (b'f' ∷ []) (b'1' ∷ []) 1 _ refl refl (omega arith)
        (omega (arith, plain_put_answer_size (elsewhere 1 leader_addr))))
      (two_nodes-attempt 1 (b'l' ∷ []) (b'2' ∷ []) 2 _ refl refl (omega arith)
        (omega (arith, plain_put_answer_size accepted)))
      refl

at_most_three_tries_example :
    ((put (counting two_nodes) plain (0, 0) client (b'k' ∷ []) (7 ∷ [])).0.0.1 ≤ 3)
    × ((get (counting two_nodes) plain (0, 0) client (b'k' ∷ [])).0.0.1 ≤ 3)
    × ((del (counting two_nodes) plain (0, 0) client (b'k' ∷ [])).0.0.1 ≤ 3)
    × ((scan (counting two_nodes) plain (0, 0) client (b'k' ∷ []) [] 10).0.0.1 ≤ 3)
at_most_three_tries_example =
    at_most_three_tries two_nodes plain (0, 0) client (b'k' ∷ []) (7 ∷ []) [] 10

get_after_put_example :
    let net = node_net memory_db plain (λ i. record { now = i; timeout = 150 }) in
    let done = put net plain (alone three_keys) client (b'd' ∷ []) (4 ∷ []) in
    let read = get net plain done.0.0 done.0.1 (b'd' ∷ []) in
    (done.1 ≡ result true) × (read.1 ≡ result (some (4 ∷ []))) × (read.0.1 ≡ client)
unfolding bytes_eq
get_after_put_example =
    get_after_put memory_db plain memory_db-NeverFails (λ i. record { now = i; timeout = 150 })
      three_keys new_client (b'f' ∷ []) (b'd' ∷ []) (4 ∷ []) (b'd' ∷ []) 1 (refl, tt) (omega arith)
      (omega (arith, plain_put_size (record { key = b'd' ∷ []; value = 4 ∷ []; call_id = 1 })))
      (omega (arith, plain_put_answer_size accepted))
      (omega (arith, plain_get_size (record { key = b'd' ∷ []; call_id = 1 })))
      (omega (
        arith,
        plain_found_size (record {
          error_code = ok;
          key = b'd' ∷ [];
          value = 4 ∷ [];
          call_id = 1;
          correct_leader_addr = [];
        }),
      ))
