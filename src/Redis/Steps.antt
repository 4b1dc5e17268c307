-- ===== src/Redis/Steps.antt =====
-- The threads of a RedisClient: those that subscribe and unsubscribe, and the one of subLoop.
use learn_git.Base.{Bool, ℕ, ◌≡◌, false, ◌⊎◌, true, suc, ◌<◌, ◌-◌, ◌≢◌}
use learn_git.Redis.Client.{
  RedisClient, CmdType, new_client, connect, push_request, run_commands, fail_commands,
  start_subscribe_loop, stop_begins, stop_ends,
}
use learn_git.Config.Text.{ℤ}

-- Where the thread of subLoop is: `entered` before the first test of its loop and while it runs.
pub data Loop : Type 0 where
  none_started entered ended : Loop

-- The client, its thread, and how many callers have found `_running` true and not yet queued.
pub record System : Type 0 where
  pub client : RedisClient
  pub loop : Loop
  pub inside : ℕ

pub data Step (s : System) : System → Type 0 where
  connects :
      (made_pub made_sub pub_err sub_err : Bool)
      → Step s (record s { client = (connect made_pub made_sub pub_err sub_err s.client).0 })
  starts :
      s.client.running ≡ false
      → (s.loop ≡ none_started) ⊎ (s.loop ≡ ended)
      → Step s (record s { client = start_subscribe_loop s.client; loop = entered })
  enters : s.client.running ≡ true → Step s (record s { inside = suc s.inside })
  pushes :
      (type : CmdType) (channel : ℤ)
      → 0 < s.inside
      → Step s (record s { client = push_request type channel s.client; inside = s.inside - 1 })
  serves :
      (replied : ℕ → Bool)
      → s.loop ≡ entered
      → Step s (record s { client = run_commands replied s.client })
  leaves : s.loop ≡ entered → Step s (record s { client = fail_commands s.client; loop = ended })
  stop_starts : Step s (record s { client = stop_begins s.client })
  stop_finishes : s.loop ≢ entered → Step s (record s { client = stop_ends s.client })

pub data Reach : System → Type 0 where
  made : Reach (record { client = new_client; loop = none_started; inside = 0 })
  later : {s t : System} → Reach s → Step s t → Reach t
