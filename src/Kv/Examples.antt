-- ===== src/Kv/Examples.antt =====
-- The theorems about the request handlers, on a database in memory.
use learn_git.Storage.Examples.{three_keys, memory_db-NeverFails}
use learn_git.Kv.Plain.{plain}
use learn_git.Kv.Service.{handle_get, handle_put, with_raft, alone, handle_delete}
use learn_git.Raft.Node.{init, proposed_entry}
use learn_git.Storage.Memory.{memory_db}
use learn_git.Kv.Answers.{get_after_write, put_acknowledged_uncommitted}
use learn_git.RaftService.Host.{Host}
use learn_git.Base.{[], ◌∷◌, ◌++◌, bytes_eq, ◌≡◌, refl}
use learn_git.Raft.Types.{RaftNode, leader}
use learn_git.Kv.Messages.{RpcMessage, PutRequest, GetRequest, DeleteRequest, ok, key_not_found}

-- Node 1 of three nodes; node 2 has a connection.
abbrev host_of : RaftNode → Host memory_db
host_of n = record {
  db = three_keys;
  node = n;
  peer_addrs = (2, b'x' ∷ []) ∷ (3, b'y' ∷ []) ∷ [];
  connected = 2 ∷ [];
  outbox = [];
}

abbrev new_node : RaftNode
new_node = init (record { now = 0; timeout = 150 }) 1 (2 ∷ 3 ∷ [])

abbrev following : RaftNode
following = record new_node { leader_id = 3 }

abbrev leading : RaftNode
leading = record new_node { state = leader; current_term = 1 }

abbrev put_d : PutRequest
put_d = record { key = b'd' ∷ []; value = 4 ∷ []; call_id = 8 }

abbrev delete_c : DeleteRequest
delete_c = record { key = b'c' ∷ []; call_id = 9 }

abbrev delete_d : DeleteRequest
delete_d = record { key = b'd' ∷ []; call_id = 9 }

abbrev pub get_c : GetRequest
get_c = record { key = b'c' ∷ []; call_id = 10 }

put_acknowledged_uncommitted_example :
    (h' : Host memory_db) × ((handle_put memory_db plain (with_raft (host_of leading)) put_d).0
      ≡ with_raft h')
    × ((handle_put memory_db plain (with_raft (host_of leading)) put_d).1.error_code ≡ ok)
    × (h'.node.log
        ≡ leading.log
          ++ proposed_entry (plain.rpc_bytes (RpcMessage.put_request put_d)) leading ∷ [])
    × (h'.node.commit_index ≡ leading.commit_index)
    × (h'.node.last_applied ≡ leading.last_applied)
put_acknowledged_uncommitted_example =
    put_acknowledged_uncommitted memory_db plain (host_of leading) put_d refl

get_after_write_example :
    (handle_get memory_db plain (handle_put memory_db plain (alone three_keys) put_d).0 get_c
      ≡ handle_get memory_db plain (alone three_keys) get_c)
    × (handle_get memory_db plain
          (handle_delete memory_db plain (alone three_keys) delete_c).0
          get_c
        ≡ record {
          error_code = key_not_found;
          key = b'c' ∷ [];
          value = [];
          call_id = 10;
          correct_leader_addr = [];
        })
unfolding bytes_eq
get_after_write_example =
    get_after_write memory_db plain memory_db-NeverFails three_keys put_d delete_c get_c
