-- ===== src/Raft/Log.antt =====
-- The log helpers of raft_node.cpp, and the loop of handleAppendEntries over the entries received.
use learn_git.Base.{
  ℕ, suc, List, [], ◌∷◌, ◌++◌, ◌&&◌, not, ltb, leb, ◌==◌, if◌then◌else◌, length, get_or, take,
}
use learn_git.Raft.Types.{LogEntry, empty_entry}

-- Out of range it is the static empty entry.
abbrev pub get_log_entry : List LogEntry → ℕ → LogEntry
get_log_entry log index = get_or log index empty_entry

abbrev pub last_log_index : List LogEntry → ℕ
last_log_index [] = 0
last_log_index (e ∷ es) = length es

abbrev pub last_log_term : List LogEntry → ℕ
last_log_term [] = 0
last_log_term (e ∷ []) = e.term
last_log_term (e ∷ f ∷ es) = last_log_term (f ∷ es)

-- One round of the loop, at position `idx`: cut the log on a conflict, then append past its end.
unfoldable pub truncate_conflict : ℕ → LogEntry → List LogEntry → List LogEntry
truncate_conflict idx e log =
    if leb idx (last_log_index log) && not ((get_log_entry log idx).term == e.term)
    then take idx log
    else log

unfoldable pub append_missing : ℕ → LogEntry → List LogEntry → List LogEntry
append_missing idx e log = if ltb (last_log_index log) idx then log ++ e ∷ [] else log

-- The loop; `idx` is the position before the next entry.
unfoldable pub merge_entries : ℕ → List LogEntry → List LogEntry → List LogEntry
merge_entries idx [] log = log
merge_entries idx (e ∷ es) log =
    merge_entries (suc idx) es (append_missing (suc idx) e (truncate_conflict (suc idx) e log))
