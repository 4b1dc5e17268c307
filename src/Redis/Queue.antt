-- ===== src/Redis/Queue.antt =====
-- The queue of commands of RedisClient holds the requests that are not answered, in their order.
use learn_git.Redis.Serving.{Served, fail_loop-Served, run_loop-Served, numbers_from}
use native.Mathlib.Decide.{dec_le}
use learn_git.Base.{
  subst, suc, arith, ◌≡◌, ℕ, ◌++◌, inl, ◌+◌, ◌∙◌, Bool, false, [], ap, ◌<◌, ◌∷◌, sym, inr, ◌≤◌,
  zero, true, refl, ◌⊎◌,
}
use learn_git.Redis.Client.{
  RedisClient, CmdType, run_loop, fail_loop, run_commands, fail_commands, push_request, new_client,
  connect, stop_begins, stop_ends, start_subscribe_loop, await,
}
use learn_git.Redis.Steps.{
  System, Step, Reach, connects, starts, enters, pushes, serves, leaves, stop_starts, stop_finishes,
  made, later,
}
use learn_git.Config.Text.{ℤ}

numbers_from-append : (k n : ℕ) → numbers_from k n ++ (k + n) ∷ [] ≡ numbers_from k (suc n)
numbers_from-append k zero = ap (λ m. m ∷ []) (omega arith)
numbers_from-append k (suc n) =
    ap (λ l. k ∷ l)
      (ap (λ m. numbers_from (suc k) n ++ m ∷ []) (omega arith) ∙ numbers_from-append (suc k) n)

-- The requests before `first` are answered, and the others wait in the order in which they were made.
pub record IsQueued (c : RedisClient) : Type 0 where
  pub first : ℕ
  pub waiting : ℕ
  pub total : first + waiting ≡ c.made
  pub queued : c.cmd_queue ≡ numbers_from first waiting
  pub answered : (id : ℕ) → id < first → (c.requests id).done ≡ true
  pub not_yet : (id : ℕ) → first ≤ id → id < c.made → (c.requests id).done ≡ false

Served-IsQueued :
    {replied : ℕ → Bool}
    → {k n : ℕ} → {c d : RedisClient} → k + n ≡ c.made
    → ((id : ℕ) → id < k → (c.requests id).done ≡ true)
    → Served replied k n c d
    → IsQueued d
Served-IsQueued {replied} {k} {n} {c} {d} total answered v = record {
  first = k + n;
  waiting = 0;
  total = omega (arith, total, v.same_made);
  queued = v.emptied;
  answered = λ id h. elim (dec_le k id) [
    | yes l ↦ (v.replies id l h).0
    | no g ↦ ap (λ r. r.done) (v.kept id (omega arith)) ∙ answered id (omega arith)
  ];
  not_yet = λ id l h. absurd (omega (arith, v.same_made, total));
}

run_commands-Served :
    (replied : ℕ → Bool) (c : RedisClient) (q : IsQueued c)
    → Served replied q.first q.waiting c (run_commands replied c)
unfolding run_commands
run_commands-Served replied c q =
    subst (λ l. Served replied q.first q.waiting c (run_loop replied l c)) (sym q.queued)
      (run_loop-Served replied q.first q.waiting c)

fail_commands-Served :
    (c : RedisClient) (q : IsQueued c) → Served (λ _. false) q.first q.waiting c (fail_commands c)
unfolding fail_commands
fail_commands-Served c q =
    subst (λ l. Served (λ _. false) q.first q.waiting c (fail_loop l c)) (sym q.queued)
      (fail_loop-Served q.first q.waiting c)

pub push_request-IsQueued :
    (type : CmdType) (channel : ℤ) (c : RedisClient)
    → IsQueued c
    → IsQueued (push_request type channel c)
unfolding push_request
push_request-IsQueued type channel c q = record {
  first = q.first;
  waiting = suc q.waiting;
  total = omega (arith, q.total);
  queued =
      ap (λ l. l ++ c.made ∷ []) q.queued
      ∙ ap (λ m. numbers_from q.first q.waiting ++ m ∷ []) (sym q.total)
      ∙ numbers_from-append q.first q.waiting;
  answered = λ id h. ground (arith, q.answered id h, q.total);
  not_yet = λ id l h. ground (arith, q.not_yet id l);
}

-- Nothing is done to the queue.
IsQueued-kept :
    {c d : RedisClient}
    → d.cmd_queue ≡ c.cmd_queue
    → d.requests ≡ c.requests
    → d.made ≡ c.made
    → IsQueued c
    → IsQueued d
IsQueued-kept {c} {d} e f g q = record {
  first = q.first;
  waiting = q.waiting;
  total = q.total ∙ sym g;
  queued = e ∙ q.queued;
  answered = λ id h. ap (λ r. (r id).done) f ∙ q.answered id h;
  not_yet = λ id l h. ap (λ r. (r id).done) f ∙ q.not_yet id l (omega (arith, h, g));
}

Step-IsQueued : (s t : System) → Step s t → IsQueued s.client → IsQueued t.client
unfolding connect start_subscribe_loop stop_begins stop_ends
Step-IsQueued s t (connects a b e f) q = IsQueued-kept refl refl refl q
Step-IsQueued s t (starts r l) q = IsQueued-kept (ground arith) (ground arith) (ground arith) q
Step-IsQueued s t (enters r) q = q
Step-IsQueued s t (pushes type channel h) q = push_request-IsQueued type channel s.client q
Step-IsQueued s t (serves replied l) q =
    Served-IsQueued q.total q.answered (run_commands-Served replied s.client q)
Step-IsQueued s t (leaves l) q =
    Served-IsQueued q.total q.answered (fail_commands-Served s.client q)
Step-IsQueued s t stop_starts q = IsQueued-kept (ground arith) (ground arith) (ground arith) q
Step-IsQueued s t (stop_finishes l) q = IsQueued-kept refl refl refl q

-- In every state that a client and its threads reach, the queue holds exactly the requests without an
-- answer, each once, in the order in which they were made, and all of them were made after those that
-- have one.
pub Reach-IsQueued : {s : System} → Reach s → IsQueued s.client
unfolding new_client
Reach-IsQueued made = record {
  first = 0;
  waiting = 0;
  total = refl;
  queued = refl;
  answered = λ id h. absurd (omega arith);
  not_yet = λ id l h. absurd (omega arith);
}
Reach-IsQueued (later {s = s} {t = t} before step) = Step-IsQueued s t step (Reach-IsQueued before)

await-Served :
    {replied : ℕ → Bool}
    → {k n : ℕ} → {c d : RedisClient} → Served replied k n c d
    → (id : ℕ) → k ≤ id
    → id < k + n
    → await id d ≡ replied id
unfolding await
await-Served v id l h = let answer = v.replies id l h in rw (answer.0) answer.1

-- In every state that a client and its threads reach, serving the queue and failing it at the end of
-- subLoop answer the requests that have no answer yet, the first with the replies of Redis and the
-- second with false, and leave those that have one as they are: each is answered once.
pub answered_once :
    (s : System) (replied : ℕ → Bool) (id : ℕ)
    → Reach s
    → id < s.client.made
    → let d = run_commands replied s.client in
      let e = fail_commands s.client in
      (((s.client.requests id).done ≡ true)
        × (d.requests id ≡ s.client.requests id)
        × (e.requests id ≡ s.client.requests id))
      ⊎ (((s.client.requests id).done ≡ false)
          × (((d.requests id).done ≡ true) × (await id d ≡ replied id))
          × (((e.requests id).done ≡ true) × (await id e ≡ false)))
answered_once s replied id reach made_it =
    let q = Reach-IsQueued reach in
    let d = run_commands-Served replied s.client q in
    let e = fail_commands-Served s.client q in
    elim (dec_le q.first id) [
      | yes l ↦
          let h : id < q.first + q.waiting = omega (arith, q.total, made_it) in
          inr (
            q.not_yet id l made_it,
            ((d.replies id l h).0, await-Served d id l h),
            ((e.replies id l h).0, await-Served e id l h),
          )
      | no g ↦
          let before : id < q.first = omega arith in
          inl (q.answered id before, d.kept id before, e.kept id before)
    ]
