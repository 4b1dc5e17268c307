-- ===== src/Redis/Client.antt =====
-- RedisClient (chat/src/server/redis.cpp, chat/include/redis.h). hiredis is not part of the repository:
-- its contexts are whether they are there, and the outcome of a command is an argument.
use learn_git.Base.{
  ℕ, update, List, Bool, Bytes, false, if◌then◌else◌, true, ◌&&◌, ◌∷◌, [], ◌++◌, Option, not, suc,
  bytes_eq, some, none,
}
use learn_git.Config.Text.{ℤ, pos}

pub data CmdType : Type 0 where
  subscribe unsubscribe : CmdType

pub record CmdRequest : Type 0 where
  pub type : CmdType
  pub channel : ℤ
  pub done : Bool
  pub result : Bool

-- `requests` is the store of the shared requests, of which `made` are there; `commands` are the
-- calls of redisCommand that subLoop has made, with or without a reply, newest first.
pub record RedisClient : Type 0 where
  pub pub_ctx : Bool
  pub sub_ctx : Bool
  pub running : Bool
  pub cmd_queue : List ℕ
  pub requests : ℕ → CmdRequest
  pub made : ℕ
  pub commands : List (CmdType × ℤ)

abbrev no_request : CmdRequest
no_request = record { type = subscribe; channel = pos 0; done = false; result = false }

unfoldable pub new_client : RedisClient
new_client = record {
  pub_ctx = false;
  sub_ctx = false;
  running = false;
  cmd_queue = [];
  requests = λ _. no_request;
  made = 0;
  commands = [];
}

-- Whether the two connections are there, and whether each has an error.
unfoldable pub connect : Bool → Bool → Bool → Bool → RedisClient → RedisClient × Bool
connect made_pub made_sub pub_err sub_err c = (
  record c { pub_ctx = made_pub; sub_ctx = made_sub },
  (made_pub && made_sub) && (not pub_err && not sub_err),
)

-- `replied` is whether redisCommand yields a reply.
unfoldable pub publish : Bool → RedisClient → Bool
publish replied c = c.pub_ctx && replied

-- `subscribe` and `unsubscribe`, from the making of the request to its place in the queue.
unfoldable pub push_request : CmdType → ℤ → RedisClient → RedisClient
push_request type channel c = record c {
  requests =
      update c.requests c.made
        (record { type = type; channel = channel; done = false; result = false });
  cmd_queue = c.cmd_queue ++ c.made ∷ [];
  made = suc c.made;
}

-- What `subscribe` and `unsubscribe` return once they are notified or three seconds have passed.
unfoldable pub await : ℕ → RedisClient → Bool
await id c = if (c.requests id).done then (c.requests id).result else false

-- The loop over the queue in subLoop. `replied id` is whether the command of request `id` gets a reply.
unfoldable pub run_loop : (ℕ → Bool) → List ℕ → RedisClient → RedisClient
run_loop replied [] c = record c { cmd_queue = [] }
run_loop replied (id ∷ ids) c =
    let req = c.requests id in
    run_loop replied ids (record c {
      requests = update c.requests id (record req { result = replied id; done = true });
      commands = (req.type, req.channel) ∷ c.commands;
    })

unfoldable pub run_commands : (ℕ → Bool) → RedisClient → RedisClient
run_commands replied c = run_loop replied c.cmd_queue c

-- The loop at the end of subLoop.
unfoldable pub fail_loop : List ℕ → RedisClient → RedisClient
fail_loop [] c = record c { cmd_queue = [] }
fail_loop (id ∷ ids) c = fail_loop ids (record c {
  requests = update c.requests id (record (c.requests id) { result = false; done = true });
})

unfoldable pub fail_commands : RedisClient → RedisClient
fail_commands c = fail_loop c.cmd_queue c

-- A reply is handed to the callback when it is an array of three whose first element says "message".
-- `atoi` reads the number of the channel.
unfoldable pub handle_reply : (Bytes → ℤ) → List Bytes → Option (ℤ × Bytes)
handle_reply atoi (type ∷ channel ∷ msg ∷ []) =
    if bytes_eq type (b'm' ∷ b'e' ∷ b's' ∷ b's' ∷ b'a' ∷ b'g' ∷ b'e' ∷ [])
    then some (atoi channel, msg)
    else none
handle_reply atoi _ = none

unfoldable pub start_subscribe_loop : RedisClient → RedisClient
start_subscribe_loop c = if c.running then c else record c { running = true }

-- `stopSubscribeLoop` until it waits for the thread, and after that.
unfoldable pub stop_begins : RedisClient → RedisClient
stop_begins c = if c.running then record c { running = false; sub_ctx = false } else c

unfoldable pub stop_ends : RedisClient → RedisClient
stop_ends c = record c { pub_ctx = false }
