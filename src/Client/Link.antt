-- ===== src/Client/Link.antt =====
-- KvClient::sendRaw (client_sdk/kv_client.cpp) on a network that is a parameter.
use learn_git.Base.{ℕ, ◌+◌, Bytes, Option, none, some, ltb, if◌then◌else◌, length, take, drop}
use learn_git.Wire.Frames.{frame_bytes, read_length}

-- One connection: to an address, a port and the bytes to send, it is opened, the bytes are sent and
-- what the other side sends is read until it is closed; `none` if a call on the way fails.
pub record Net : Type 1 where
  pub World : Type 0
  pub talk : World → Bytes → ℕ → Bytes → World × Option Bytes

-- The two reads of the header and the read of the payload, which wait for all their bytes.
unfoldable pub read_response : Bytes → Option Bytes
unfolding read_length
read_response got =
    if ltb (length got) (5 + read_length got)
    then none
    else some (take (read_length got) (drop 5 got))

abbrev pub received : Option Bytes → Option Bytes
received none = none
received (some got) = read_response got

unfoldable pub send_raw : (net : Net) → net.World → Bytes → ℕ → Bytes → net.World × Option Bytes
unfolding frame_bytes read_response
send_raw net w ip port payload =
    let done = net.talk w ip port (frame_bytes 0 payload) in (done.0, received done.1)
