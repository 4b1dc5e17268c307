-- ===== src/RaftService/Keys.antt =====
-- The keys and numbers of raft_service.cpp as bytes: encodeLogKey, and std::to_string and
-- std::stoull as the code uses them.
use learn_git.Base.{
  ℕ, zero, suc, [], ◌∷◌, Bool, Bytes, Option, none, some, ◌*◌, ◌+◌, ◌/◌, if◌then◌else◌, leb, ltb,
  ◌&&◌, ◌%◌, ◌^◌, ◌-◌, u64,
}

-- The low `count` bytes of a number, the most significant first.
unfoldable pub be_bytes : ℕ → ℕ → Bytes
be_bytes zero x = []
be_bytes (suc i) x = (x / 2 ^ (8 * i) % 256) ∷ be_bytes i x

-- "\xff" and the index as eight bytes.
unfoldable pub encode_log_key : ℕ → Bytes
unfolding be_bytes
encode_log_key index = 255 ∷ be_bytes 8 index

-- std::string("\x00raft_term", 10) and std::string("\x00raft_vote", 10).
abbrev pub term_key : Bytes
term_key = 0 ∷ b'r' ∷ b'a' ∷ b'f' ∷ b't' ∷ b'_' ∷ b't' ∷ b'e' ∷ b'r' ∷ b'm' ∷ []

abbrev pub vote_key : Bytes
vote_key = 0 ∷ b'r' ∷ b'a' ∷ b'f' ∷ b't' ∷ b'_' ∷ b'v' ∷ b'o' ∷ b't' ∷ b'e' ∷ []

-- "\xff" and "\xff\xff", the bounds of the scan for log entries.
abbrev pub log_start : Bytes
log_start = 255 ∷ []

abbrev pub log_end : Bytes
log_end = 255 ∷ 255 ∷ []

-- std::to_string: decimal digits, in front of those that are there; the number bounds the rounds.
unfoldable pub digits_before : ℕ → ℕ → Bytes → Bytes
digits_before zero n acc = (48 + n % 10) ∷ acc
digits_before (suc rounds) n acc =
    let rest = digits_before rounds (n / 10) ((48 + n % 10) ∷ acc) in
    if ltb n 10 then (48 + n % 10) ∷ acc else rest

unfoldable pub to_string : ℕ → Bytes
unfolding digits_before
to_string n = digits_before n n []

abbrev pub is_digit : ℕ → Bool
is_digit c = leb 48 c && leb c 57

-- The value of the leading digits, on top of those read.
unfoldable pub read_digits : ℕ → Bytes → ℕ
read_digits acc [] = acc
read_digits acc (c ∷ cs) =
    let rest = read_digits (acc * 10 + (c - 48)) cs in if is_digit c then rest else acc

-- std::stoull on a text that starts with a digit; the exceptions (no digit, out of range) are
-- `none`. Blanks and a sign in front, which strtoull accepts, do not occur in what is stored.
unfoldable pub stoull : Bytes → Option ℕ
unfolding read_digits
stoull [] = none
stoull (c ∷ cs) =
    if is_digit c
    then (if ltb (read_digits 0 (c ∷ cs)) u64 then some (read_digits 0 (c ∷ cs)) else none)
    else none
