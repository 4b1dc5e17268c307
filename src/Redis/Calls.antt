-- ===== src/Redis/Calls.antt =====
-- The calls of ChatService on RedisClient (chatservice.cpp and redis.cpp), and the calls of redisCommand
-- that subLoop makes for them.
use learn_git.Base.{
  List, ℕ, ◌≡◌, [], map, Bool, ◌<◌, ◌∷◌, ◌++◌, ◌∙◌, sym, ◌+◌, refl, update, ap, suc, arith, true,
  zero, if◌then◌else◌, subst,
}
use mathlib.Core.List.{append-nil, append_assoc, map-append}
use learn_git.Redis.Steps.{System, Reach}
use learn_git.Redis.Client.{RedisClient, CmdType, push_request, run_loop, run_commands}
use learn_git.Redis.Serving.{numbers_from}
use learn_git.Redis.Queue.{IsQueued, Reach-IsQueued, push_request-IsQueued}
use learn_git.Chat.Types.{RedisCall}
use learn_git.Config.Text.{ℤ}

-- A call that queues a request, without its wait; a publication does not go through the queue.
unfoldable pub queue_call : RedisCall → RedisClient → RedisClient
queue_call (RedisCall.subscribe id) c = if c.running then push_request CmdType.subscribe id c else c
queue_call (RedisCall.unsubscribe id) c =
    if c.running then push_request CmdType.unsubscribe id c else c
queue_call (RedisCall.publish id msg) c = c

unfoldable pub queue_calls : List RedisCall → RedisClient → RedisClient
queue_calls [] c = c
queue_calls (call ∷ calls) c = queue_calls calls (queue_call call c)

-- The commands that the calls ask for.
abbrev pub asked_for : List RedisCall → List (CmdType × ℤ)
asked_for [] = []
asked_for (RedisCall.subscribe id ∷ calls) = (CmdType.subscribe, id) ∷ asked_for calls
asked_for (RedisCall.unsubscribe id ∷ calls) = (CmdType.unsubscribe, id) ∷ asked_for calls
asked_for (RedisCall.publish id msg ∷ calls) = asked_for calls

-- The commands, newest first, after more of them.
abbrev pub sent_onto : List (CmdType × ℤ) → List (CmdType × ℤ) → List (CmdType × ℤ)
sent_onto [] before = before
sent_onto (cmd ∷ cmds) before = sent_onto cmds (cmd ∷ before)

abbrev command_of : RedisClient → ℕ → CmdType × ℤ
command_of c id = ((c.requests id).type, (c.requests id).channel)

-- What the requests in the queue ask for.
abbrev pending : RedisClient → List (CmdType × ℤ)
pending c = map (command_of c) c.cmd_queue

map-same {ℓ} :
    {A : Type ℓ} → (f g : ℕ → A) (ids : List ℕ) → ((id : ℕ) → f id ≡ g id) → map f ids ≡ map g ids
map-same f g [] h = refl
map-same f g (id ∷ ids) h = rw (h id, map-same f g ids h) refl

run_loop-sends :
    (replied : ℕ → Bool) (ids : List ℕ) (c : RedisClient)
    → (run_loop replied ids c).commands ≡ sent_onto (map (command_of c) ids) c.commands
unfolding run_loop
run_loop-sends replied [] c = refl
run_loop-sends replied (k ∷ ids) c =
    let req = c.requests k in
    let c' = record c {
      requests = update c.requests k (record req { result = replied k; done = true });
      commands = (req.type, req.channel) ∷ c.commands;
    } in
    run_loop-sends replied ids c'
    ∙ ap (λ l. sent_onto l c'.commands)
        (map-same (command_of c') (command_of c) ids (λ id. ground arith))

map-below {ℓ} :
    {A : Type ℓ}
    → (f g : ℕ → A) (k n : ℕ) → ((id : ℕ) → id < k + n → f id ≡ g id)
    → map f (numbers_from k n) ≡ map g (numbers_from k n)
map-below f g k zero h = refl
map-below f g k (suc n) h =
    rw (h k (omega arith), map-below f g (suc k) n (λ id l. h id (omega arith))) refl

push_request-pending :
    (type : CmdType) (channel : ℤ) (c : RedisClient)
    → IsQueued c
    → pending (push_request type channel c) ≡ pending c ++ (type, channel) ∷ []
unfolding push_request
push_request-pending type channel c q =
    let c' = push_request type channel c in
    let old : map (command_of c') c.cmd_queue ≡ pending c =
      ap (map (command_of c')) q.queued
      ∙ map-below (command_of c') (command_of c) q.first q.waiting (λ id h. ground (arith, q.total))
      ∙ ap (map (command_of c)) (sym q.queued) in
    let mine : command_of c' c.made ≡ (type, channel) = ground arith in
    map-append (command_of c') c.cmd_queue (c.made ∷ [])
    ∙ ap (λ l. l ++ command_of c' c.made ∷ []) old
    ∙ ap (λ x. pending c ++ x ∷ []) mine

pending-more :
    (type : CmdType) (channel : ℤ) (cmds : List (CmdType × ℤ)) (c d : RedisClient)
    → IsQueued c
    → pending d ≡ pending (push_request type channel c) ++ cmds
    → pending d ≡ pending c ++ (type, channel) ∷ cmds
pending-more type channel cmds c d q e =
    e
    ∙ ap (λ l. l ++ cmds) (push_request-pending type channel c q)
    ∙ append_assoc (pending c) _ cmds

queue_calls-pending :
    (calls : List RedisCall) (c : RedisClient)
    → IsQueued c
    → c.running ≡ true
    → (pending (queue_calls calls c) ≡ pending c ++ asked_for calls)
      × ((queue_calls calls c).commands ≡ c.commands)
unfolding queue_calls queue_call push_request
queue_calls-pending [] c q r = (sym (append-nil (pending c)), refl)
queue_calls-pending (RedisCall.subscribe id ∷ calls) c q r =
    let d = push_request CmdType.subscribe id c in
    let rest = queue_calls-pending calls d (push_request-IsQueued CmdType.subscribe id c q) r in
    let more =
      pending-more CmdType.subscribe id (asked_for calls) c (queue_calls calls d) q rest.0 in
    subst
      (λ x.
        (pending (queue_calls calls x) ≡ pending c ++ (CmdType.subscribe, id) ∷ asked_for calls)
        × ((queue_calls calls x).commands ≡ c.commands))
      (sym (ap (λ b. if b then d else c) r)) (more, rest.1)
queue_calls-pending (RedisCall.unsubscribe id ∷ calls) c q r =
    let d = push_request CmdType.unsubscribe id c in
    let rest = queue_calls-pending calls d (push_request-IsQueued CmdType.unsubscribe id c q) r in
    let more =
      pending-more CmdType.unsubscribe id (asked_for calls) c (queue_calls calls d) q rest.0 in
    subst
      (λ x.
        (pending (queue_calls calls x) ≡ pending c ++ (CmdType.unsubscribe, id) ∷ asked_for calls)
        × ((queue_calls calls x).commands ≡ c.commands))
      (sym (ap (λ b. if b then d else c) r)) (more, rest.1)
queue_calls-pending (RedisCall.publish id msg ∷ calls) c q r = queue_calls-pending calls c q r

-- A client that runs was reached by steps of its threads and has served its queue. Then calls of
-- ChatService are queued, and the thread of subLoop serves the queue: after the calls before, it has
-- called redisCommand with SUBSCRIBE and UNSUBSCRIBE for the channels of those calls, each once and in
-- their order, whatever Redis replies. A call of publish adds no command.
pub commands_in_order :
    (s : System) (calls : List RedisCall) (replied : ℕ → Bool)
    → Reach s
    → s.client.running ≡ true
    → s.client.cmd_queue ≡ []
    → (run_commands replied (queue_calls calls s.client)).commands
      ≡ sent_onto (asked_for calls) s.client.commands
unfolding run_commands
commands_in_order s calls replied reach runs served =
    let queued = queue_calls-pending calls s.client (Reach-IsQueued reach) runs in
    run_loop-sends replied _ (queue_calls calls s.client)
    ∙ ap (λ l. sent_onto l (queue_calls calls s.client).commands)
        (queued.0 ∙ ap (λ l. map (command_of s.client) l ++ asked_for calls) served)
    ∙ ap (sent_onto (asked_for calls)) queued.1
