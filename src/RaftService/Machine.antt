-- ===== src/RaftService/Machine.antt =====
-- The committed commands as the state machine that they implement: a map from keys to values
-- (RaftService::onApply, data_node/raft_service.cpp).
use learn_git.Base.{
  ℕ, suc, List, [], ◌∷◌, Bytes, Option, none, some, map, ◌≡◌, refl, ◌∙◌, if◌then◌else◌, bytes_eq,
  arith, ap,
}
use learn_git.Kv.Messages.{Protobuf, RpcMessage}
use learn_git.Storage.Rocks.{RocksDb}
use learn_git.Storage.Engine.{NeverFails, engine_put, engine_del}
use learn_git.RaftService.Recovery.{on_apply, apply_message}

-- What a command says of a key: nothing, or what the key holds after it.
abbrev pub writes : Bytes → RpcMessage → Option (Option Bytes)
writes key (RpcMessage.put_request req) =
    if bytes_eq req.key key then some (some req.value) else none
writes key (RpcMessage.delete_request req) = if bytes_eq req.key key then some none else none
writes key _ = none

abbrev pub later_or : Option (Option Bytes) → Option (Option Bytes) → Option (Option Bytes)
later_or own none = own
later_or own (some w) = some w

-- What the last of the commands that speak of the key says.
abbrev pub last_write : Bytes → List RpcMessage → Option (Option Bytes)
last_write key [] = none
last_write key (msg ∷ msgs) = later_or (writes key msg) (last_write key msgs)

abbrev pub held : Option (Option Bytes) → Option Bytes → Option Bytes
held none before = before
held (some w) before = w

held-later_or :
    (own later : Option (Option Bytes)) (before : Option Bytes)
    → held later (held own before) ≡ held (later_or own later) before
held-later_or own none before = refl
held-later_or own (some w) before = refl

module _ (r : RocksDb) (pb : Protobuf) where
  -- The callback, for one command after another from an index on.
  abbrev pub apply_commands : r.Db → ℕ → List Bytes → r.Db
  apply_commands db i [] = db
  apply_commands db i (cmd ∷ cmds) = apply_commands (on_apply r pb db i cmd) (suc i) cmds

module _ (r : RocksDb) (pb : Protobuf) (sure : NeverFails r) where
  apply_message-writes :
      (db : r.Db) (key : Bytes) (msg : RpcMessage)
      → r.contents (apply_message r pb db msg) key ≡ held (writes key msg) (r.contents db key)
  unfolding apply_message engine_put engine_del
  apply_message-writes db key (RpcMessage.put_request req) =
      r.put_ok db req.key req.value key (sure.puts db req.key req.value) ∙ ground arith
  apply_message-writes db key (RpcMessage.delete_request req) =
      r.delete_ok db req.key key (sure.deletes db req.key) ∙ ground arith
  apply_message-writes db key (RpcMessage.get_request req) = refl
  apply_message-writes db key (RpcMessage.get_response a) = refl
  apply_message-writes db key (RpcMessage.put_response a) = refl
  apply_message-writes db key (RpcMessage.delete_response a) = refl
  apply_message-writes db key (RpcMessage.scan_request req) = refl
  apply_message-writes db key (RpcMessage.scan_response a) = refl

  on_apply-writes :
      (db : r.Db) (i : ℕ) (key : Bytes) (msg : RpcMessage)
      → r.contents (on_apply r pb db i (pb.rpc_bytes msg)) key
        ≡ held (writes key msg) (r.contents db key)
  unfolding on_apply
  on_apply-writes db i key msg =
      rw (on_apply, pb.parse_rpc-rpc_bytes msg) (apply_message-writes db key msg)

  -- On a database where no call fails, serialised messages that are committed and applied one after
  -- another leave under each key what the last put or delete of that key says, and what was there
  -- before if none does; other messages change nothing.
  pub apply_commands-last_write :
      (msgs : List RpcMessage) (db : r.Db) (i : ℕ) (key : Bytes)
      → r.contents (apply_commands r pb db i (map pb.rpc_bytes msgs)) key
        ≡ held (last_write key msgs) (r.contents db key)
  apply_commands-last_write [] db i key = refl
  apply_commands-last_write (msg ∷ msgs) db i key =
      apply_commands-last_write msgs (on_apply r pb db i (pb.rpc_bytes msg)) (suc i) key
      ∙ ap (held (last_write key msgs)) (on_apply-writes db i key msg)
      ∙ held-later_or (writes key msg) (last_write key msgs) (r.contents db key)
