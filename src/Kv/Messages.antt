-- ===== src/Kv/Messages.antt =====
-- kv_rpc.proto and common.proto: the messages that the key-value code exchanges, and protobuf's
-- serialisation, which is generated and third-party code.
use learn_git.Base.{ℕ, List, Bool, Bytes, Option, some, ◌≡◌}
use learn_git.Raft.Types.{LogEntry, RaftMessage}

pub data ErrorCode : Type 0 where
  ok key_not_found wrong_leader shard_not_found timeout not_leader internal_error : ErrorCode

pub record GetRequest : Type 0 where
  pub key : Bytes
  pub call_id : ℕ

pub record GetResponse : Type 0 where
  pub error_code : ErrorCode
  pub key : Bytes
  pub value : Bytes
  pub call_id : ℕ
  pub correct_leader_addr : Bytes

pub record PutRequest : Type 0 where
  pub key : Bytes
  pub value : Bytes
  pub call_id : ℕ

-- A PutResponse and a DeleteResponse have the same fields.
pub record WriteResponse : Type 0 where
  pub error_code : ErrorCode
  pub call_id : ℕ
  pub correct_leader_addr : Bytes

pub record DeleteRequest : Type 0 where
  pub key : Bytes
  pub call_id : ℕ

pub record ScanRequest : Type 0 where
  pub start_key : Bytes
  pub end_key : Bytes
  pub limit : ℕ
  pub call_id : ℕ

pub record ScanResponse : Type 0 where
  pub error_code : ErrorCode
  pub kvs : List (Bytes × Bytes)
  pub has_more : Bool
  pub next_start_key : Bytes
  pub call_id : ℕ
  pub correct_leader_addr : Bytes

-- The message type decides which of the submessages is read.
pub data RpcMessage : Type 0 where
  get_request : GetRequest → RpcMessage
  get_response : GetResponse → RpcMessage
  put_request : PutRequest → RpcMessage
  put_response : WriteResponse → RpcMessage
  delete_request : DeleteRequest → RpcMessage
  delete_response : WriteResponse → RpcMessage
  scan_request : ScanRequest → RpcMessage
  scan_response : ScanResponse → RpcMessage

-- SerializeToString and ParseFromString; what was serialised parses back.
pub record Protobuf : Type 0 where
  pub entry_bytes : LogEntry → Bytes
  pub parse_entry : Bytes → Option LogEntry
  pub rpc_bytes : RpcMessage → Bytes
  pub parse_rpc : Bytes → Option RpcMessage
  pub raft_bytes : RaftMessage → Bytes
  pub parse_raft : Bytes → Option RaftMessage
  pub parse_entry-entry_bytes : (e : LogEntry) → parse_entry (entry_bytes e) ≡ some e
  pub parse_rpc-rpc_bytes : (m : RpcMessage) → parse_rpc (rpc_bytes m) ≡ some m
  pub parse_raft-raft_bytes : (m : RaftMessage) → parse_raft (raft_bytes m) ≡ some m
