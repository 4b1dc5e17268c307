-- ===== src/Client/ReadBack.antt =====
-- What a client reads back of what it has written.
use learn_git.Kv.Answers.{answer_of, handle_get-contents}
use learn_git.Kv.Service.{write_answer, alone, dispatch_client_rpc, handle_put}
use learn_git.Raft.Types.{Env}
use learn_git.Base.{
  ℕ, Option, Bytes, ◌<◌, ◌^◌, [], ◌≡◌, true, if◌then◌else◌, ap, bytes_eq, ◌∙◌, some, none, refl,
  arith, subst, sym,
}
use learn_git.Kv.Messages.{Protobuf, RpcMessage, ok}
use learn_git.Storage.Rocks.{RocksDb}
use learn_git.Client.KvClient.{
  put, KvClient, connect, get, result, put_done, get_done, answered, redirected_to,
}
use learn_git.Client.Redirects.{put_message}
use learn_git.Client.Alone.{call-answered, node_net, Fits, get_message}
use learn_git.Client.Addresses.{Lacks}
use learn_git.Storage.Engine.{NeverFails, engine_put}

module _ (r : RocksDb) (pb : Protobuf) (sure : NeverFails r) (clock : ℕ → Env) where
  open r use {Db, contents}

  abbrev pub put_answer : RpcMessage
  put_answer = RpcMessage.put_response (write_answer r pb ok 1 [])

  abbrev pub get_answer : Option Bytes → Bytes → RpcMessage
  get_answer found key =
      RpcMessage.get_response (answer_of r pb sure found (record { key = key; call_id = 1 }))

  read_found :
      (found : Option Bytes) (key : Bytes)
      → (redirected_to (get_answer found key) ≡ none)
        × (get_done (answered (get_answer found key)) ≡ result found)
  unfolding redirected_to
  read_found none key = (refl, refl)
  read_found (some value) key = (refl, refl)

  stores :
      (db : Db) (key value : Bytes)
      → dispatch_client_rpc r pb (alone db) (put_message key value)
        ≡ (alone (engine_put r db key value).0, some put_answer)
  unfolding dispatch_client_rpc handle_put engine_put
  stores db key value = rw (sure.puts db key value) refl

  finds :
      (db : Db) (key : Bytes)
      → dispatch_client_rpc r pb (alone db) (get_message key)
        ≡ (alone db, some (get_answer (contents db key) key))
  unfolding dispatch_client_rpc
  finds db key =
      ap (λ a. (alone db, some (RpcMessage.get_response a)))
        (handle_get-contents r pb sure db (record { key = key; call_id = 1 }))

  client_put :
      (db : Db) (c : KvClient) (ip key value : Bytes) (port : ℕ)
      → Lacks b':' ip
      → port < 2 ^ 16
      → Fits pb (put_message key value)
      → Fits pb put_answer
      → put (node_net r pb clock) pb (alone db) (connect ip port c) key value
        ≡ ((alone (engine_put r db key value).0, connect ip port c), result true)
  unfolding put redirected_to
  client_put db c ip key value port plain_ip small fit fit' =
      ap (λ x. (x.0, put_done x.1))
        (call-answered r pb clock (alone db) (alone (engine_put r db key value).0) c ip port key
          (put_message key value) put_answer plain_ip small fit fit' (stores db key value) refl)

  client_get :
      (db : Db) (c : KvClient) (ip key : Bytes) (port : ℕ)
      → Lacks b':' ip
      → port < 2 ^ 16
      → Fits pb (get_message key)
      → Fits pb (get_answer (contents db key) key)
      → get (node_net r pb clock) pb (alone db) (connect ip port c) key
        ≡ ((alone db, connect ip port c), result (contents db key))
  unfolding get
  client_get db c ip key port plain_ip small fit fit' =
      let found = read_found (contents db key) key in
      ap (λ x. (x.0, get_done x.1))
        (call-answered r pb clock (alone db) (alone db) c ip port key (get_message key)
          (get_answer (contents db key) key) plain_ip small fit fit' (finds db key) found.0)
      ∙ ap (λ x. ((alone db, connect ip port c), x)) found.1

  -- A client connects to a data node that runs alone, on a database where no call fails, puts a value
  -- and gets a key, if the messages fit a frame, the address has no colon and the port 16 bits: the put succeeds, and
  -- the get returns the value that was put, or under another key what the database held before; the
  -- client stays connected to the same address.
  pub get_after_put :
      (db : Db) (c : KvClient) (ip key value other_key : Bytes) (port : ℕ)
      → Lacks b':' ip
      → port < 2 ^ 16
      → Fits pb (put_message key value)
      → Fits pb put_answer
      → Fits pb (get_message other_key)
      → Fits pb (
          get_answer
            (if bytes_eq key other_key then some value else contents db other_key)
            other_key)
      → let done = put (node_net r pb clock) pb (alone db) (connect ip port c) key value in
        let read = get (node_net r pb clock) pb done.0.0 done.0.1 other_key in
        (done.1 ≡ result true)
        × (read.1 ≡ result (if bytes_eq key other_key then some value else contents db other_key))
        × (read.0.1 ≡ connect ip port c)
  unfolding engine_put
  get_after_put db c ip key value other_key port plain_ip small fit1 fit2 fit3 fit4 =
      let holds : contents (engine_put r db key value).0 other_key
          ≡ (if bytes_eq key other_key then some value else contents db other_key) =
        rw (r.put_ok db key value other_key (sure.puts _ _ _)) (ground arith) in
      let p = client_put db c ip key value port plain_ip small fit1 fit2 in
      let g =
        client_get (engine_put r db key value).0 c ip other_key port plain_ip small fit3
          (subst (λ found. Fits pb (get_answer found other_key)) (sym holds) fit4) in
      let q = ap (λ x. (get (node_net r pb clock) pb x.0.0 x.0.1 other_key)) p ∙ g in
      (ap (λ x. x.1) p, ap (λ x. x.1) q ∙ ap result holds, ap (λ x. x.0.1) q)
