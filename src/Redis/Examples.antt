-- ===== src/Redis/Examples.antt =====
-- The theorems about RedisClient at two requests.
use learn_git.Chat.Types.{RedisCall}
use learn_git.Redis.Calls.{queue_calls, commands_in_order}
use learn_git.Base.{true, ℕ, ◌≡◌, Bool, ◌⊎◌, false, arith, inl, refl, ◌∷◌, []}
use learn_git.Redis.Client.{
  run_loop, new_client, connect, push_request, start_subscribe_loop, run_commands, fail_commands,
  await, CmdType,
}
use learn_git.Redis.Steps.{
  System, Reach, entered, made, later, connects, starts, enters, pushes, serves,
}
use learn_git.Redis.Queue.{answered_once, Reach-IsQueued, IsQueued}
use learn_git.Config.Text.{pos}

abbrev all_reply : ℕ → Bool
all_reply id = true

abbrev started : System
started = record {
  client = start_subscribe_loop (connect true true false false new_client).0;
  loop = entered;
  inside = 0;
}

-- Channel 7 was subscribed to.
abbrev idle : System
idle = record {
  client = run_commands all_reply (push_request CmdType.subscribe (pos 7) started.client);
  loop = entered;
  inside = 0;
}

idle-Reach : Reach idle
unfolding connect new_client start_subscribe_loop run_commands run_loop push_request
idle-Reach =
    later
      (later
        (later (later (later made (connects true true false false)) (starts refl (inl refl)))
          (enters refl))
        (pushes CmdType.subscribe (pos 7) (omega arith)))
      (serves all_reply refl)

-- A second caller waits to leave it.
abbrev waiting : System
waiting = record {
  client = push_request CmdType.unsubscribe (pos 7) idle.client;
  loop = entered;
  inside = 0;
}

waiting-Reach : Reach waiting
unfolding connect new_client start_subscribe_loop run_commands run_loop push_request
waiting-Reach =
    later (later idle-Reach (enters refl)) (pushes CmdType.unsubscribe (pos 7) (omega arith))

Reach-IsQueued_example : IsQueued waiting.client
Reach-IsQueued_example = Reach-IsQueued waiting-Reach

answered_once_example :
    (((waiting.client.requests 1).done ≡ true)
      × ((run_commands all_reply waiting.client).requests 1 ≡ waiting.client.requests 1)
      × ((fail_commands waiting.client).requests 1 ≡ waiting.client.requests 1))
    ⊎ (((waiting.client.requests 1).done ≡ false)
        × ((((run_commands all_reply waiting.client).requests 1).done ≡ true)
            × (await 1 (run_commands all_reply waiting.client) ≡ true))
        × ((((fail_commands waiting.client).requests 1).done ≡ true)
            × (await 1 (fail_commands waiting.client) ≡ false)))
unfolding push_request run_commands run_loop start_subscribe_loop connect new_client
answered_once_example = answered_once waiting all_reply 1 waiting-Reach (omega arith)

commands_in_order_example :
    (run_commands all_reply (
      queue_calls
        (RedisCall.unsubscribe (pos 7) ∷ RedisCall.subscribe (pos 8) ∷ [])
        idle.client)).commands
    ≡ (CmdType.subscribe, pos 8) ∷ (CmdType.unsubscribe, pos 7) ∷ (CmdType.subscribe, pos 7) ∷ []
unfolding push_request run_commands run_loop start_subscribe_loop connect new_client
commands_in_order_example =
    commands_in_order idle (RedisCall.unsubscribe (pos 7) ∷ RedisCall.subscribe (pos 8) ∷ [])
      all_reply idle-Reach refl refl
