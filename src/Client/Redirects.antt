-- ===== src/Client/Redirects.antt =====
-- What the client does when a data node names the leader.
use mathlib.Core.Option.{some-injective}
use learn_git.Base.{◌≡◌, ℕ, Bytes, [], some, false, is_empty, ap, refl, suc, none, arith, sym}
use learn_git.Client.KvClient.{
  KvClient, Pointer, null, own, injected, current_router, pointed, with_router, put, del, scan,
  call, send_to_addr, attempt, redirected_to, answered, result, is_not_leader, is_ok,
}
use learn_git.Kv.Messages.{Protobuf, not_leader, WriteResponse, ScanResponse, RpcMessage}
use learn_git.Pd.Router.{Router, set_direct_node, get_addr_for_key}
use learn_git.Client.Link.{Net}

-- The redirect that a write is answered with.
abbrev pub elsewhere : ℕ → Bytes → WriteResponse
elsewhere call_id addr = record {
  error_code = not_leader;
  call_id = call_id;
  correct_leader_addr = addr;
}

abbrev pub scan_elsewhere : ℕ → Bytes → ScanResponse
scan_elsewhere call_id addr = record {
  error_code = not_leader;
  kvs = [];
  has_more = false;
  next_start_key = [];
  call_id = call_id;
  correct_leader_addr = addr;
}

abbrev pub put_message : Bytes → Bytes → RpcMessage
put_message key value = RpcMessage.put_request (record { key = key; value = value; call_id = 1 })

abbrev pub delete_message : Bytes → RpcMessage
delete_message key = RpcMessage.delete_request (record { key = key; call_id = 1 })

abbrev pub scan_message : Bytes → Bytes → ℕ → RpcMessage
scan_message start_key end_key limit =
    RpcMessage.scan_request
      (record { start_key = start_key; end_key = end_key; limit = limit; call_id = 1 })

same_fields :
    (p : Pointer) (r router : Router)
    → pointed p r ≡ some router
    → with_router p router (record { default_router = r; router = p })
      ≡ record { default_router = r; router = p }
same_fields null r router e = refl
same_fields own r router e =
    ap (λ s. record { default_router = s; router = own }) (sym (some-injective r router e))
same_fields (injected s) r router e =
    ap (λ t. record { default_router = r; router = injected t }) (sym (some-injective s router e))

pub same_router :
    (c : KvClient) (router : Router)
    → current_router c ≡ some router
    → with_router c.router router c ≡ c
same_router c router e = same_fields c.router c.default_router router e

module _ (net : Net) (pb : Protobuf) where
  open net use {World}

  pub call_sends :
      (w : World) (c : KvClient) (router : Router) (key : Bytes) (req : RpcMessage)
      → current_router c ≡ some router
      → is_empty (get_addr_for_key key router) ≡ false
      → let done = send_to_addr net pb 3 w router (get_addr_for_key key router) req in
        call net pb w c key req ≡ ((done.0.0, with_router c.router done.0.1 c), done.1)
  unfolding call
  call_sends w c router key req e known = ground arith

  pub send_to_addr-ends :
      (tries : ℕ) (w w1 : World) (router : Router) (addr : Bytes) (req msg : RpcMessage)
      → attempt net pb w addr req ≡ (w1, answered msg)
      → redirected_to msg ≡ none
      → send_to_addr net pb (suc tries) w router addr req ≡ ((w1, router), answered msg)
  unfolding send_to_addr
  send_to_addr-ends tries w w1 router addr req msg first ends = ground arith

  send_to_addr-goes_on :
      (tries : ℕ) (w w1 : World) (router : Router) (addr new_addr : Bytes) (req msg : RpcMessage)
      → attempt net pb w addr req ≡ (w1, answered msg)
      → redirected_to msg ≡ some new_addr
      → send_to_addr net pb (suc tries) w router addr req
        ≡ send_to_addr net pb tries w1 (set_direct_node new_addr router) new_addr req
  unfolding send_to_addr
  send_to_addr-goes_on tries w w1 router addr new_addr req msg first on = ground arith

  -- When the node that the client knows names another as the leader, and that one answers without
  -- a redirect, a put goes on to the second node, its answer is the result, and the client's router
  -- leads there from then on.
  pub put_follows_redirect :
      (w w1 w2 : World) (c : KvClient) (router : Router) (key value addr : Bytes)
      (a : WriteResponse)
      → current_router c ≡ some router
      → is_empty (get_addr_for_key key router) ≡ false
      → is_empty addr ≡ false
      → attempt net pb w (get_addr_for_key key router) (put_message key value)
        ≡ (w1, answered (RpcMessage.put_response (elsewhere 1 addr)))
      → attempt net pb w1 addr (put_message key value) ≡ (w2, answered (RpcMessage.put_response a))
      → is_not_leader a.error_code ≡ false
      → put net pb w c key value
        ≡ ((w2, with_router c.router (set_direct_node addr router) c), result (is_ok a.error_code))
  unfolding put redirected_to
  put_follows_redirect w w1 w2 c router key value addr a e known named first second last =
      let on : redirected_to (RpcMessage.put_response (elsewhere 1 addr)) ≡ some addr =
        ground arith in
      let ends : redirected_to (RpcMessage.put_response a) ≡ none = ground arith in
      let m = put_message key value in
      let whole = call_sends w c router key m e known in
      let one =
        send_to_addr-goes_on 2 w w1 router (get_addr_for_key key router) addr m _ first on in
      let two = send_to_addr-ends 1 w1 w2 (set_direct_node addr router) addr m _ second ends in
      rw (whole, one, two) refl

  -- A delete and a scan that are answered with a redirect end there: the delete reports failure, the
  -- scan yields no pairs, and the client and its router stay as they were.
  pub delete_ignores_redirect :
      (w w1 w2 : World) (c : KvClient) (router : Router) (key end_key addr : Bytes) (limit : ℕ)
      → current_router c ≡ some router
      → is_empty (get_addr_for_key key router) ≡ false
      → attempt net pb w (get_addr_for_key key router) (delete_message key)
        ≡ (w1, answered (RpcMessage.delete_response (elsewhere 1 addr)))
      → attempt net pb w (get_addr_for_key key router) (scan_message key end_key limit)
        ≡ (w2, answered (RpcMessage.scan_response (scan_elsewhere 1 addr)))
      → (del net pb w c key ≡ ((w1, c), result false))
        × (scan net pb w c key end_key limit ≡ ((w2, c), result []))
  unfolding del scan redirected_to
  delete_ignores_redirect w w1 w2 c router key end_key addr limit e known told scan_told =
      let same = same_router c router e in
      let addr_now = get_addr_for_key key router in
      let m = delete_message key in
      let n = scan_message key end_key limit in
      let one = send_to_addr-ends 2 w w1 router addr_now m _ told refl in
      let two = send_to_addr-ends 2 w w2 router addr_now n _ scan_told refl in
      (
        rw (call_sends w c router key m e known, one, same) refl,
        rw (call_sends w c router key n e known, two, same) refl,
      )
