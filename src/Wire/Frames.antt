-- ===== src/Wire/Frames.antt =====
-- Frames: four bytes of length, the most significant first, a type byte, and the payload. Written by
-- LengthPrefixedCodec::sendRaw (common/codec.cpp) and RaftService::sendRaftRpc, and read by
-- DataServer::onMessage (data_node/data_server.cpp). A buffer is the list of its readable bytes.
use learn_git.Base.{
  ◌>>=◌, ℕ, zero, suc, List, [], ◌∷◌, ◌++◌, Bytes, Option, none, some, ltb, ◌+◌, ◌*◌, ◌%◌, ◌^◌,
  if◌then◌else◌, length, take, drop, get_or,
}
use learn_git.RaftService.Keys.{be_bytes}

-- sendRaw, with the type byte; the length is cut to 32 bits.
unfoldable pub frame_bytes : ℕ → Bytes → Bytes
unfolding be_bytes
frame_bytes type payload = be_bytes 4 (length payload) ++ type ∷ payload

-- memcpy of four bytes and ntohl.
unfoldable pub read_length : Bytes → ℕ
read_length (a ∷ b ∷ c ∷ d ∷ rest) = ((a * 256 + b) * 256 + c) * 256 + d
read_length _ = 0

-- What the loop finds in the buffer: no whole frame; a frame and the bytes after it; or a length
-- that passes the test though the bytes are not there, where retrieveAsString's assertion fails.
pub data Next : Type 0 where
  waits : Next
  frame : ℕ → Bytes → Bytes → Next
  overruns : Next

-- One round of the loop; `5 + len` is a uint32_t.
unfoldable pub next_frame : Bytes → Next
unfolding read_length
next_frame buf =
    let len = read_length buf in
    if ltb (length buf) 5
    then waits
    else if ltb (length buf) ((5 + len) % 2 ^ 32)
    then waits
    else if ltb (length buf) (5 + len)
    then overruns
    else frame (get_or buf 4 0) (take len (drop 5 buf)) (drop len (drop 5 buf))

-- The loop: the frames in order and the bytes left; `none` is the failed assertion. A round takes
-- five bytes or more, so as many rounds as bytes are enough.
unfoldable pub read_loop : ℕ → Bytes → Option (List (ℕ × Bytes) × Bytes)
read_loop zero buf = some ([], buf)
read_loop (suc rounds) buf = elim (next_frame buf) [
  | waits ↦ some ([], buf)
  | overruns ↦ none
  | frame type payload rest ↦ do
    later ← read_loop rounds rest
    some ((type, payload) ∷ later.0, later.1)
]

unfoldable pub read_frames : Bytes → Option (List (ℕ × Bytes) × Bytes)
unfolding read_loop
read_frames buf = read_loop (length buf) buf
