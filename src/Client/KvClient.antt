-- ===== src/Client/KvClient.antt =====
-- KvClient (client_sdk/kv_client.cpp), with its connection to the placement driver left out.
use learn_git.Base.{
  ℕ, zero, suc, List, [], ◌∷◌, ◌++◌, Bool, true, false, ◌&&◌, not, Bytes, Option, none, some,
  if◌then◌else◌, is_empty,
}
use learn_git.RaftService.Keys.{to_string}
use learn_git.Config.Text.{split_at, stoi, to_u16}
use learn_git.Kv.Messages.{Protobuf, ErrorCode, ok, not_leader, RpcMessage}
use learn_git.Pd.Router.{Router, set_direct_node, get_addr_for_key}
use learn_git.Client.Link.{Net, send_raw}

-- Where router_ points.
pub data Pointer : Type 0 where
  null own : Pointer
  injected : Router → Pointer

pub record KvClient : Type 0 where
  pub default_router : Router
  pub router : Pointer

abbrev empty_router : Router
empty_router = record { direct_addr = []; use_pd = false; shard_map = []; router_addrs = λ _. none }

unfoldable pub new_client : KvClient
new_client = record { default_router = empty_router; router = null }

unfoldable pub connect : Bytes → ℕ → KvClient → KvClient
unfolding set_direct_node
connect ip port c = record {
  default_router = set_direct_node (ip ++ b':' ∷ to_string port) c.default_router;
  router = own;
}

unfoldable pub set_router : Pointer → KvClient → KvClient
set_router router c = record c { router = router }

abbrev pub pointed : Pointer → Router → Option Router
pointed null r = none
pointed own r = some r
pointed (injected s) r = some s

-- *router_, and the client after a change of it.
abbrev pub current_router : KvClient → Option Router
current_router c = pointed c.router c.default_router

abbrev pub with_router : Pointer → Router → KvClient → KvClient
with_router null r c = c
with_router own r c = record c { default_router = r }
with_router (injected s) r c = record c { router = injected r }

-- How a call ends: an exception of std::stoi, a failure, or a response.
pub data Sent : Type 0 where
  threw failed : Sent
  answered : RpcMessage → Sent

abbrev pub is_ok : ErrorCode → Bool
is_ok ok = true
is_ok _ = false

abbrev pub is_not_leader : ErrorCode → Bool
is_not_leader not_leader = true
is_not_leader _ = false

abbrev pub leader_named : ErrorCode → Bytes → Option Bytes
leader_named code addr = if is_not_leader code && not (is_empty addr) then some addr else none

-- The address that sendToAddr goes on with.
unfoldable pub redirected_to : RpcMessage → Option Bytes
redirected_to (RpcMessage.put_response a) = leader_named a.error_code a.correct_leader_addr
redirected_to (RpcMessage.get_response a) = leader_named a.error_code a.correct_leader_addr
redirected_to _ = none

-- What a call answers: an exception, or a result.
pub data Outcome {ℓ} (A : Type ℓ) : Type ℓ where
  raised : Outcome A
  result : A → Outcome A

abbrev pub parsed : Protobuf → Option Bytes → Sent
parsed pb none = failed
parsed pb (some got) = elim (pb.parse_rpc got) [ none ↦ failed | some msg ↦ answered msg ]

-- put_response() and the others: a response of another kind has a default submessage, with the
-- error code OK.
abbrev pub put_done : Sent → Outcome Bool
put_done threw = raised
put_done failed = result false
put_done (answered (RpcMessage.put_response a)) = result (is_ok a.error_code)
put_done (answered _) = result true

abbrev pub delete_done : Sent → Outcome Bool
delete_done threw = raised
delete_done failed = result false
delete_done (answered (RpcMessage.delete_response a)) = result (is_ok a.error_code)
delete_done (answered _) = result true

abbrev pub get_done : Sent → Outcome (Option Bytes)
get_done threw = raised
get_done failed = result none
get_done (answered (RpcMessage.get_response a)) =
    result (if is_ok a.error_code then some a.value else none)
get_done (answered _) = result (some [])

abbrev pub scan_done : Sent → Outcome (List (Bytes × Bytes))
scan_done threw = raised
scan_done failed = result []
scan_done (answered (RpcMessage.scan_response a)) = result a.kvs
scan_done (answered _) = result []

module _ (net : Net) (pb : Protobuf) where
  open net use {World}

  -- One round of sendToAddr, up to the parsed response.
  unfoldable pub attempt : World → Bytes → RpcMessage → World × Sent
  unfolding split_at stoi send_raw
  attempt w addr req = elim (split_at b':' addr) [
    | none ↦ (w, failed)
    | some (ip, rest) ↦ elim (stoi rest) [
      | none ↦ (w, threw)
      | some port ↦
          let done = send_raw net w ip (to_u16 port) (pb.rpc_bytes req) in
          (done.0, parsed pb done.1)
    ]
  ]

  -- sendToAddr. Its loop returns in the first round, so it calls itself for each retry.
  unfoldable pub send_to_addr : ℕ → World → Router → Bytes → RpcMessage → (World × Router) × Sent
  unfolding attempt redirected_to set_direct_node
  send_to_addr zero w router addr req = ((w, router), failed)
  send_to_addr (suc max_retries) w router addr req =
      let done = attempt w addr req in
      elim done.1 [
        | threw ↦ ((done.0, router), threw)
        | failed ↦ ((done.0, router), failed)
        | answered msg ↦ elim (redirected_to msg) [
          | none ↦ ((done.0, router), answered msg)
          | some new_addr ↦
              send_to_addr max_retries done.0 (set_direct_node new_addr router) new_addr req
        ]
      ]

  -- What the four calls share: the client has a router, which knows an address for the key.
  unfoldable pub call : World → KvClient → Bytes → RpcMessage → (World × KvClient) × Sent
  unfolding send_to_addr get_addr_for_key
  call w c key req = elim (current_router c) [
    | none ↦ ((w, c), failed)
    | some router ↦
        if is_empty (get_addr_for_key key router)
        then ((w, c), failed)
        else (let done = send_to_addr 3 w router (get_addr_for_key key router) req in
            ((done.0.0, with_router c.router done.0.1 c), done.1))
  ]

  unfoldable pub put : World → KvClient → Bytes → Bytes → (World × KvClient) × Outcome Bool
  unfolding call
  put w c key value =
      let req = RpcMessage.put_request (record { key = key; value = value; call_id = 1 }) in
      let done = call w c key req in (done.0, put_done done.1)

  -- The value, or `none` for false.
  unfoldable pub get : World → KvClient → Bytes → (World × KvClient) × Outcome (Option Bytes)
  unfolding call
  get w c key =
      let req = RpcMessage.get_request (record { key = key; call_id = 1 }) in
      let done = call w c key req in (done.0, get_done done.1)

  unfoldable pub del : World → KvClient → Bytes → (World × KvClient) × Outcome Bool
  unfolding call
  del w c key =
      let req = RpcMessage.delete_request (record { key = key; call_id = 1 }) in
      let done = call w c key req in (done.0, delete_done done.1)

  unfoldable pub scan :
      World → KvClient → Bytes → Bytes → ℕ → (World × KvClient) × Outcome (List (Bytes × Bytes))
  unfolding call
  scan w c start_key end_key limit =
      let req =
        RpcMessage.scan_request
          (record { start_key = start_key; end_key = end_key; limit = limit; call_id = 1 }) in
      let done = call w c start_key req in (done.0, scan_done done.1)
