-- ===== src/Pd/Service.antt =====
-- PdService (pd_server/pd_service.cpp), and how PdServer::onMessage (pd_server/pd_server.cpp) finds
-- the handler of a request: by parsing it as one kind of message after the other.
use learn_git.Wire.Frames.{read_frames}
use learn_git.Base.{
  ℕ, List, [], ◌∷◌, ◌++◌, Bool, true, Bytes, Option, none, some, ◌>>=◌, ◌≡◌, refl, if◌then◌else◌,
  ap, ◌∙◌,
}
use learn_git.Pd.Manager.{ShardState, Manager, register_node, process_heartbeat}

-- The fields of NodeInfo that registerNode reads.
pub record NodeInfo : Type 0 where
  pub ip : Bytes
  pub port : ℕ

-- A HeartbeatRequest, with the is_leader field of each shard state.
pub record HeartbeatRequest : Type 0 where
  pub node_id : ℕ
  pub leads : List Bool

-- ParseFromString of the three requests, in the order in which they are tried. The encoding of a
-- message whose fields all have their default values is empty, and an empty text parses as such a
-- message, of whatever kind.
pub record PdProtobuf : Type 0 where
  pub parse_register : Bytes → Option NodeInfo
  pub parse_heartbeat : Bytes → Option HeartbeatRequest
  pub parse_get_shard_map : Bytes → Bool
  pub get_shard_map_bytes : Bytes
  pub get_shard_map_empty : get_shard_map_bytes ≡ []
  pub parse_register_empty : parse_register [] ≡ some (record { ip = []; port = 0 })
  pub parse_get_shard_map_empty : parse_get_shard_map [] ≡ true

pub data PdAnswer : Type 0 where
  registered : ℕ → PdAnswer
  heard_heartbeat : PdAnswer
  shard_map : List ShardState → PdAnswer

unfoldable pub handle_register_node : ℕ → NodeInfo → Manager → Manager × PdAnswer
handle_register_node now info m =
    let done = register_node now info.ip info.port m in (done.0, registered done.1)

unfoldable pub hear_all : ℕ → ℕ → List Bool → Manager → Manager
hear_all now id [] m = m
hear_all now id (leads ∷ rest) m = hear_all now id rest (process_heartbeat now id leads m)

unfoldable pub handle_heartbeat : ℕ → HeartbeatRequest → Manager → Manager × PdAnswer
unfolding hear_all
handle_heartbeat now req m = (hear_all now req.node_id req.leads m, heard_heartbeat)

-- getShardMap copies the shards.
unfoldable pub handle_get_shard_map : Manager → Manager × PdAnswer
handle_get_shard_map m = (m, shard_map m.shards)

abbrev pub answers : Option PdAnswer → List PdAnswer
answers none = []
answers (some a) = a ∷ []

module _ (pb : PdProtobuf) where
  abbrev some_answer : Manager × PdAnswer → Manager × Option PdAnswer
  some_answer done = (done.0, some done.1)

  -- One frame's payload; what parses as nothing is dropped.
  unfoldable pub pd_serve : ℕ → Bytes → Manager → Manager × Option PdAnswer
  unfolding handle_register_node handle_heartbeat handle_get_shard_map
  pd_serve now payload m = elim (pb.parse_register payload) [
    | some info ↦ some_answer (handle_register_node now info m)
    | none ↦ elim (pb.parse_heartbeat payload) [
      | some req ↦ some_answer (handle_heartbeat now req m)
      | none ↦
          if pb.parse_get_shard_map payload then some_answer (handle_get_shard_map m) else (m, none)
    ]
  ]

  unfoldable pub pd_serve_frames : ℕ → List (ℕ × Bytes) → Manager → Manager × List PdAnswer
  unfolding pd_serve
  pd_serve_frames now [] m = (m, [])
  pd_serve_frames now ((type, payload) ∷ fs) m =
      let done = pd_serve now payload m in
      let later = pd_serve_frames now fs done.0 in (later.0, answers done.1 ++ later.1)

  unfoldable pub pd_on_message : ℕ → Manager → Bytes → Option ((Manager × List PdAnswer) × Bytes)
  unfolding pd_serve_frames
  pd_on_message now m buf = do
    parsed ← read_frames buf
    some (pd_serve_frames now parsed.0 m, parsed.1)

  -- A request for the shard map is empty, so it is taken for the registration of a node: the client
  -- is answered with a node id instead of the map, and the manager has one more node without an
  -- address.
  pub get_shard_map_registers :
      (now : ℕ) (m : Manager)
      → ((pd_serve now pb.get_shard_map_bytes m).1 ≡ some (registered m.next_node_id))
        × ((pd_serve now pb.get_shard_map_bytes m).0 ≡ (register_node now [] 0 m).0)
  unfolding pd_serve register_node
  get_shard_map_registers now m =
      let taken : pb.parse_register pb.get_shard_map_bytes ≡ some (record { ip = []; port = 0 }) =
        ap pb.parse_register pb.get_shard_map_empty ∙ pb.parse_register_empty in
      rw (taken, pd_serve) (refl, refl)
