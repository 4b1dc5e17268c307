-- ===== src/Kv/Plain/Sizes.antt =====
-- How long the messages of the plain serialisation are.
use learn_git.Base.{◌+◌, ◌≡◌, arith, length, length-append, [], ◌∷◌, ◌++◌}
use learn_git.Kv.Messages.{
  GetRequest, GetResponse, PutRequest, WriteResponse, ScanResponse, RpcMessage,
}
use learn_git.Kv.Plain.{plain, flat, rpc_fields, pair_fields}

pub plain_get_size :
    (req : GetRequest) → length (plain.rpc_bytes (RpcMessage.get_request req)) ≡ 4 + length req.key
unfolding plain flat rpc_fields
plain_get_size req = omega (arith, length-append req.key [])

pub plain_found_size :
    (a : GetResponse)
    → length (plain.rpc_bytes (RpcMessage.get_response a))
      ≡ 7 + length a.key + length a.value + length a.correct_leader_addr
unfolding plain flat rpc_fields
plain_found_size a =
    let addr = a.correct_leader_addr ++ [] in
    omega (
      arith,
      length-append a.key (length a.value ∷ (a.value ++ (length a.correct_leader_addr ∷ addr))),
      length-append a.value (length a.correct_leader_addr ∷ addr),
      length-append a.correct_leader_addr [],
    )

pub plain_put_size :
    (req : PutRequest)
    → length (plain.rpc_bytes (RpcMessage.put_request req)) ≡ 5 + length req.key + length req.value
unfolding plain flat rpc_fields
plain_put_size req =
    omega (
      arith,
      length-append req.key (length req.value ∷ req.value ++ []),
      length-append req.value [],
    )

pub plain_put_answer_size :
    (a : WriteResponse)
    → length (plain.rpc_bytes (RpcMessage.put_response a)) ≡ 5 + length a.correct_leader_addr
unfolding plain flat rpc_fields
plain_put_answer_size a = omega (arith, length-append a.correct_leader_addr [])

pub plain_delete_answer_size :
    (a : WriteResponse)
    → length (plain.rpc_bytes (RpcMessage.delete_response a)) ≡ 5 + length a.correct_leader_addr
unfolding plain flat rpc_fields
plain_delete_answer_size a = omega (arith, length-append a.correct_leader_addr [])

pub plain_empty_scan_size :
    (a : ScanResponse)
    → a.kvs ≡ []
    → length (plain.rpc_bytes (RpcMessage.scan_response a))
      ≡ 7 + length a.next_start_key + length a.correct_leader_addr
unfolding plain flat rpc_fields pair_fields
plain_empty_scan_size a e =
    let addr = a.correct_leader_addr ++ [] in
    rw e (
      omega (
        arith,
        length-append a.next_start_key (length a.correct_leader_addr ∷ addr),
        length-append a.correct_leader_addr [],
      ))
