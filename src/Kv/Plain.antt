-- ===== src/Kv/Plain.antt =====
-- A serialisation that parses back, which shows that protobuf's law can be met: a message is a
-- list of fields, each with its length before it.
pub mod Sizes
use learn_git.Base.{
  ℕ, zero, suc, List, [], ◌∷◌, ◌++◌, Bool, true, false, Bytes, Option, none, some, ◌≡◌, length,
  ◌==◌, if◌then◌else◌, refl, ◌+◌, arith, length-append,
}
use learn_git.Raft.Types.{
  LogEntry, RaftMessage, request_vote, request_vote_resp, append_entries, append_entries_resp,
  other,
}
use learn_git.Kv.Messages.{Protobuf, RpcMessage, ErrorCode, GetRequest}

flat : List Bytes → Bytes
flat [] = []
flat (b ∷ bs) = length b ∷ b ++ flat bs

-- The rest of the current field, and the fields after it.
cut : ℕ → Bytes → Bytes × List Bytes
cut zero [] = ([], [])
cut zero (n ∷ xs) = let r = cut n xs in ([], r.0 ∷ r.1)
cut (suc n) [] = ([], [])
cut (suc n) (x ∷ xs) = let r = cut n xs in (x ∷ r.0, r.1)

cut-flat : (b : Bytes) (bs : List Bytes) → cut (length b) (b ++ flat bs) ≡ (b, bs)
unfolding cut flat
cut-flat [] [] = refl
cut-flat [] (c ∷ cs) = rw (cut-flat c cs)
cut-flat (x ∷ b) bs = rw (cut-flat b bs)

fields-flat : (bs : List Bytes) → (cut 0 (flat bs)).1 ≡ bs
unfolding cut flat
fields-flat [] = refl
fields-flat (b ∷ bs) = rw (cut-flat b bs)

entry_fields : List LogEntry → List Bytes
entry_fields [] = []
entry_fields (e ∷ es) = (e.term ∷ e.index ∷ []) ∷ e.command ∷ entry_fields es

read_entries : List Bytes → List LogEntry
read_entries ((t ∷ i ∷ []) ∷ c ∷ bs) = record { term = t; index = i; command = c } ∷ read_entries bs
read_entries _ = []

entries-fields : (es : List LogEntry) → read_entries (entry_fields es) ≡ es
unfolding read_entries entry_fields
entries-fields [] = refl
entries-fields (e ∷ es) = rw (entries-fields es)

pair_fields : List (Bytes × Bytes) → List Bytes
pair_fields [] = []
pair_fields ((k, v) ∷ es) = k ∷ v ∷ pair_fields es

read_pairs : List Bytes → List (Bytes × Bytes)
read_pairs (k ∷ v ∷ bs) = (k, v) ∷ read_pairs bs
read_pairs _ = []

pairs-fields : (es : List (Bytes × Bytes)) → read_pairs (pair_fields es) ≡ es
unfolding read_pairs pair_fields
pairs-fields [] = refl
pairs-fields ((k, v) ∷ es) = rw (pairs-fields es)

flag : Bool → ℕ
flag b = if b then 1 else 0

flag-read : (b : Bool) → (flag b == 1) ≡ b
unfolding flag
flag-read true = refl
flag-read false = refl

code : ErrorCode → ℕ
code ErrorCode.ok = 0
code ErrorCode.key_not_found = 1
code ErrorCode.wrong_leader = 2
code ErrorCode.shard_not_found = 3
code ErrorCode.timeout = 4
code ErrorCode.not_leader = 5
code ErrorCode.internal_error = 6

read_code : ℕ → ErrorCode
read_code zero = ErrorCode.ok
read_code (suc zero) = ErrorCode.key_not_found
read_code (suc (suc zero)) = ErrorCode.wrong_leader
read_code (suc (suc (suc zero))) = ErrorCode.shard_not_found
read_code (suc (suc (suc (suc zero)))) = ErrorCode.timeout
read_code (suc (suc (suc (suc (suc zero))))) = ErrorCode.not_leader
read_code _ = ErrorCode.internal_error

code-read : (c : ErrorCode) → read_code (code c) ≡ c
unfolding code read_code
code-read ErrorCode.ok = refl
code-read ErrorCode.key_not_found = refl
code-read ErrorCode.wrong_leader = refl
code-read ErrorCode.shard_not_found = refl
code-read ErrorCode.timeout = refl
code-read ErrorCode.not_leader = refl
code-read ErrorCode.internal_error = refl

rpc_fields : RpcMessage → List Bytes
rpc_fields (RpcMessage.get_request m) = (0 ∷ m.call_id ∷ []) ∷ m.key ∷ []
rpc_fields (RpcMessage.get_response m) =
    (1 ∷ m.call_id ∷ code m.error_code ∷ []) ∷ m.key ∷ m.value ∷ m.correct_leader_addr ∷ []
rpc_fields (RpcMessage.put_request m) = (2 ∷ m.call_id ∷ []) ∷ m.key ∷ m.value ∷ []
rpc_fields (RpcMessage.put_response m) =
    (3 ∷ m.call_id ∷ code m.error_code ∷ []) ∷ m.correct_leader_addr ∷ []
rpc_fields (RpcMessage.delete_request m) = (4 ∷ m.call_id ∷ []) ∷ m.key ∷ []
rpc_fields (RpcMessage.delete_response m) =
    (5 ∷ m.call_id ∷ code m.error_code ∷ []) ∷ m.correct_leader_addr ∷ []
rpc_fields (RpcMessage.scan_request m) =
    (6 ∷ m.call_id ∷ m.limit ∷ []) ∷ m.start_key ∷ m.end_key ∷ []
rpc_fields (RpcMessage.scan_response m) =
    (7 ∷ m.call_id ∷ code m.error_code ∷ flag m.has_more ∷ [])
    ∷ m.next_start_key
    ∷ m.correct_leader_addr
    ∷ pair_fields m.kvs

read_rpc : List Bytes → Option RpcMessage
read_rpc ((zero ∷ i ∷ []) ∷ k ∷ []) =
    some (RpcMessage.get_request (record { key = k; call_id = i }))
read_rpc (((suc zero) ∷ i ∷ c ∷ []) ∷ k ∷ v ∷ a ∷ []) = some (
    RpcMessage.get_response (record {
      error_code = read_code c;
      key = k;
      value = v;
      call_id = i;
      correct_leader_addr = a;
    }))
read_rpc (((suc (suc zero)) ∷ i ∷ []) ∷ k ∷ v ∷ []) =
    some (RpcMessage.put_request (record { key = k; value = v; call_id = i }))
read_rpc (((suc (suc (suc zero))) ∷ i ∷ c ∷ []) ∷ a ∷ []) = some (
    RpcMessage.put_response
      (record { error_code = read_code c; call_id = i; correct_leader_addr = a }))
read_rpc (((suc (suc (suc (suc zero)))) ∷ i ∷ []) ∷ k ∷ []) =
    some (RpcMessage.delete_request (record { key = k; call_id = i }))
read_rpc (((suc (suc (suc (suc (suc zero))))) ∷ i ∷ c ∷ []) ∷ a ∷ []) = some (
    RpcMessage.delete_response
      (record { error_code = read_code c; call_id = i; correct_leader_addr = a }))
read_rpc (((suc (suc (suc (suc (suc (suc zero)))))) ∷ i ∷ l ∷ []) ∷ s ∷ e ∷ []) =
    some (RpcMessage.scan_request (record { start_key = s; end_key = e; limit = l; call_id = i }))
read_rpc (((suc (suc (suc (suc (suc (suc (suc zero))))))) ∷ i ∷ c ∷ h ∷ []) ∷ k ∷ a ∷ bs) = some (
    RpcMessage.scan_response (record {
      error_code = read_code c;
      kvs = read_pairs bs;
      has_more = h == 1;
      next_start_key = k;
      call_id = i;
      correct_leader_addr = a;
    }))
read_rpc _ = none

rpc-fields : (m : RpcMessage) → read_rpc (rpc_fields m) ≡ some m
unfolding read_rpc rpc_fields
rpc-fields (RpcMessage.get_request m) = refl
rpc-fields (RpcMessage.get_response m) = rw (code-read m.error_code)
rpc-fields (RpcMessage.put_request m) = refl
rpc-fields (RpcMessage.put_response m) = rw (code-read m.error_code)
rpc-fields (RpcMessage.delete_request m) = refl
rpc-fields (RpcMessage.delete_response m) = rw (code-read m.error_code)
rpc-fields (RpcMessage.scan_request m) = refl
rpc-fields (RpcMessage.scan_response m) =
    rw (code-read m.error_code, pairs-fields m.kvs, flag-read m.has_more)

raft_fields : RaftMessage → List Bytes
raft_fields (request_vote m) =
    (0 ∷ m.term ∷ m.candidate_id ∷ m.last_log_index ∷ m.last_log_term ∷ []) ∷ []
raft_fields (request_vote_resp m) = (1 ∷ m.term ∷ flag m.vote_granted ∷ []) ∷ []
raft_fields (append_entries m) =
    (2 ∷ m.term ∷ m.leader_id ∷ m.prev_log_index ∷ m.prev_log_term ∷ m.leader_commit ∷ [])
    ∷ entry_fields m.entries
raft_fields (append_entries_resp m) = (3 ∷ m.term ∷ flag m.success ∷ m.match_index ∷ []) ∷ []
raft_fields other = []

read_raft : List Bytes → Option RaftMessage
read_raft ((zero ∷ t ∷ c ∷ i ∷ l ∷ []) ∷ []) =
    some
      (request_vote (record { term = t; candidate_id = c; last_log_index = i; last_log_term = l }))
read_raft (((suc zero) ∷ t ∷ v ∷ []) ∷ []) =
    some (request_vote_resp (record { term = t; vote_granted = v == 1 }))
read_raft (((suc (suc zero)) ∷ t ∷ l ∷ i ∷ p ∷ c ∷ []) ∷ bs) = some (
    append_entries (record {
      term = t;
      leader_id = l;
      prev_log_index = i;
      prev_log_term = p;
      leader_commit = c;
      entries = read_entries bs;
    }))
read_raft (((suc (suc (suc zero))) ∷ t ∷ s ∷ i ∷ []) ∷ []) =
    some (append_entries_resp (record { term = t; success = s == 1; match_index = i }))
read_raft [] = some other
read_raft _ = none

raft-fields : (m : RaftMessage) → read_raft (raft_fields m) ≡ some m
unfolding read_raft raft_fields
raft-fields (request_vote m) = refl
raft-fields (request_vote_resp m) = rw (flag-read m.vote_granted)
raft-fields (append_entries m) = rw (entries-fields m.entries)
raft-fields (append_entries_resp m) = rw (flag-read m.success)
raft-fields other = refl

read_entry : List Bytes → Option LogEntry
read_entry ((t ∷ i ∷ []) ∷ c ∷ []) = some (record { term = t; index = i; command = c })
read_entry _ = none

pub plain : Protobuf
plain = record {
  entry_bytes = λ e. flat (entry_fields (e ∷ []));
  parse_entry = λ b. read_entry (cut 0 b).1;
  rpc_bytes = λ m. flat (rpc_fields m);
  parse_rpc = λ b. read_rpc (cut 0 b).1;
  raft_bytes = λ m. flat (raft_fields m);
  parse_raft = λ b. read_raft (cut 0 b).1;
  parse_entry-entry_bytes =
      λ e. unfold read_entry entry_fields in rw (fields-flat (entry_fields (e ∷ [])));
  parse_rpc-rpc_bytes = λ m. rw (fields-flat (rpc_fields m)) (rpc-fields m);
  parse_raft-raft_bytes = λ m. rw (fields-flat (raft_fields m)) (raft-fields m);
}
