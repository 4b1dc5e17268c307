-- ===== src/Redis/Serving.antt =====
-- What serving and failing the queue of RedisClient do (the two loops of subLoop in redis.cpp).
use native.Mathlib.Decide.{ℕ_discrete}
use learn_git.Base.{
  ℕ, List, Bool, false, ◌≡◌, [], ◌∷◌, ◌≤◌, arith, subst, suc, update, ◌<◌, sym, zero, ◌+◌, true,
  ◌∙◌, refl, ap,
}
use learn_git.Redis.Client.{RedisClient, CmdType, run_loop, fail_loop}
use learn_git.Config.Text.{ℤ}

-- The numbers from `k`, `n` of them.
abbrev pub numbers_from : ℕ → ℕ → List ℕ
numbers_from k zero = []
numbers_from k (suc n) = k ∷ numbers_from (suc k) n

-- What the loop over the queue of a client does.
pub record Served (replied : ℕ → Bool) (k n : ℕ) (c d : RedisClient) : Type 0 where
  pub same_made : d.made ≡ c.made
  pub emptied : d.cmd_queue ≡ []
  pub replies :
      (id : ℕ)
      → k ≤ id
      → id < k + n
      → ((d.requests id).done ≡ true) × ((d.requests id).result ≡ replied id)
  pub kept : (id : ℕ) → id < k → d.requests id ≡ c.requests id

pub run_loop-Served :
    (replied : ℕ → Bool) (k n : ℕ) (c : RedisClient)
    → Served replied k n c (run_loop replied (numbers_from k n) c)
unfolding run_loop
run_loop-Served replied k zero c = record {
  same_made = refl;
  emptied = refl;
  replies = λ id h l. absurd (omega arith);
  kept = λ id h. refl;
}
run_loop-Served replied k (suc n) c =
    let req = c.requests k in
    let c' = record c {
      requests = update c.requests k (record req { result = replied k; done = true });
      commands = (req.type, req.channel) ∷ c.commands;
    } in
    let rest = run_loop-Served replied (suc k) n c' in
    let now : c'.requests k ≡ record req { result = replied k; done = true } = ground arith in
    let mine = rest.kept k (omega arith) ∙ now in
    record {
      same_made = rest.same_made;
      emptied = rest.emptied;
      replies = λ id h l. elim (ℕ_discrete id k) [
        | yes e ↦
            subst
              (λ i.
                (((run_loop replied (numbers_from k (suc n)) c).requests i).done ≡ true)
                × (((run_loop replied (numbers_from k (suc n)) c).requests i).result ≡ replied i))
              (sym e) (ap (λ r. r.done) mine, ap (λ r. r.result) mine)
        | no ne ↦ rest.replies id (omega arith) (omega arith)
      ];
      kept = λ id h. rest.kept id (omega arith) ∙ ground arith;
    }

-- Failing the requests is answering them without a reply, and without a command.
fail-run :
    (ids : List ℕ) (c : RedisClient) (before : List (CmdType × ℤ))
    → fail_loop ids c ≡ record (run_loop (λ _. false) ids (record c { commands = before })) {
      commands = c.commands;
    }
unfolding fail_loop run_loop
fail-run [] c before = refl
fail-run (id ∷ ids) c before =
    fail-run ids
      (record c {
        requests = update c.requests id (record (c.requests id) { result = false; done = true });
      })
      (((c.requests id).type, (c.requests id).channel) ∷ before)

pub fail_loop-Served :
    (k n : ℕ) (c : RedisClient) → Served (λ _. false) k n c (fail_loop (numbers_from k n) c)
fail_loop-Served k n c =
    let ran = run_loop-Served (λ _. false) k n (record c { commands = [] }) in
    subst (Served (λ _. false) k n c) (sym (fail-run (numbers_from k n) c [])) (record {
      same_made = ran.same_made;
      emptied = ran.emptied;
      replies = ran.replies;
      kept = ran.kept;
    })
