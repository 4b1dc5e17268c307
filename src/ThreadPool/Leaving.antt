-- ===== src/ThreadPool/Leaving.antt =====
-- Threads that leave a pool, and what holds in every state that a pool reaches.
use mathlib.Core.Option.{some-injective}
use learn_git.ThreadPool.Starting.{started_pool, length-make_threads, start_pool-first}
use learn_git.ThreadPool.Sums.{
  count_of, split_at, erase_thread-count_of, joined, busy-le-length, busy, ids, in_progress,
}
use learn_git.ThreadPool.Invariant.{Inv, enqueues-Inv, grows-Inv, takes-Inv, finishes-Inv}
use learn_git.Base.{
  ℕ, suc, ◌+◌, ◌-◌, ◌≡◌, ◌<◌, refl, ap, List, [], ◌∷◌, ◌++◌, arith, length, false, some, ◌==◌,
  if◌then◌else◌, inl, subst, sym, ◌∙◌,
}
use learn_git.ThreadPool.Pool.{
  ThreadPool, exit_thread, expire_thread, erase_thread, stop, start_pool, make_threads,
}
use learn_git.ThreadPool.Steps.{
  Worker, System, Step, idle_worker, drops, enqueues, grows, takes, finishes, exits, expires, stops,
  Reach, starts, later, IsFresh, opened, idle_workers,
}

pub exit_thread_lem :
    (id : ℕ) (p q : ThreadPool)
    → exit_thread id p ≡ some q
    → (q ≡ record p { threads = erase_thread id p.threads })
      × (p.task_size ≡ 0)
      × (p.is_start ≡ false)
unfolding exit_thread
exit_thread_lem id p q e = ground arith

pub expire_thread_lem :
    (id idle : ℕ) (p q : ThreadPool)
    → expire_thread id idle p ≡ some q
    → (q ≡ record p {
      threads = erase_thread id p.threads;
      now_thread_size = p.now_thread_size - 1;
      free_thread_size = p.free_thread_size - 1;
    })
      × (p.init_thread_size < p.now_thread_size)
unfolding expire_thread
expire_thread_lem id idle p q e = ground arith

-- A thread that leaves with nothing to do.
module _ (size id : ℕ) (before after : List Worker) (s : System)
    (e : s.workers ≡ before ++ idle_worker id ∷ after) (v : Inv size s) where
  erased :
      (suc (length (erase_thread id s.pool.threads)) ≡ length s.pool.threads)
      × ((i : ℕ)
          → count_of i s.pool.threads
            ≡ (if id == i then 1 else 0) + count_of i (erase_thread id s.pool.threads))
  erased =
      let old = split_at before after (idle_worker id) e in
      erase_thread-count_of id s.pool.threads (ground (arith, v.same_ids id, old.ids_sum id))

  exits-Inv :
      (p : ThreadPool)
      → exit_thread id s.pool ≡ some p
      → Inv size (record s { pool = p; workers = before ++ after })
  exits-Inv p x =
      let q = exit_thread_lem id s.pool p x in
      let old = split_at before after (idle_worker id) e in
      let new = joined before after in
      subst (λ p. Inv size (record s { pool = p; workers = before ++ after })) (sym q.0)
        (record {
          sized = v.sized;
          room = v.room;
          fixed_size = v.fixed_size;
          enough = v.enough;
          capped = v.capped;
          counted = omega (arith, v.counted, old.count, new.count, erased.0);
          same_ids = λ i. omega (arith, v.same_ids i, old.ids_sum i, new.ids_sum i, erased.1 i);
          split = omega (arith, v.split, old.busy_sum, new.busy_sum);
          known = omega (arith, v.known, old.count, new.count);
          whole = λ o. absurd (cc (o, q.2));
          staffed = λ l t. absurd (omega (arith, t, q.1));
          in_order = v.in_order;
          executed = λ i. omega (arith, v.executed i, old.progress_sum i, new.progress_sum i);
        })

  expires-Inv :
      (idle : ℕ) (p : ThreadPool)
      → expire_thread id idle s.pool ≡ some p
      → Inv size (record s { pool = p; workers = before ++ after })
  expires-Inv idle p x =
      let q = expire_thread_lem id idle s.pool p x in
      let old = split_at before after (idle_worker id) e in
      let new = joined before after in
      let quiet = busy-le-length (before ++ after) in
      subst (λ p. Inv size (record s { pool = p; workers = before ++ after })) (sym q.0)
        (record {
          sized = v.sized;
          room = v.room;
          fixed_size = v.fixed_size;
          enough = omega (arith, v.enough, v.fixed_size, q.1);
          capped = ground (arith, v.capped);
          counted = omega (arith, v.counted, old.count, new.count, erased.0);
          same_ids = λ i. omega (arith, v.same_ids i, old.ids_sum i, new.ids_sum i, erased.1 i);
          split =
              omega
                (arith, v.split, v.known, old.count, new.count, old.busy_sum, new.busy_sum, quiet);
          known = omega (arith, v.known, old.count, new.count);
          whole = λ h. omega (arith, v.whole h, old.count, new.count);
          staffed = λ l t. omega (arith, v.staffed l t, old.count, new.count);
          in_order = v.in_order;
          executed = λ i. omega (arith, v.executed i, old.progress_sum i, new.progress_sum i);
        })

stops-Inv : (size : ℕ) (s : System) → Inv size s → Inv size (record s { pool = stop s.pool })
unfolding stop
stops-Inv size s v = record {
  sized = v.sized;
  room = v.room;
  fixed_size = v.fixed_size;
  enough = v.enough;
  capped = v.capped;
  counted = v.counted;
  same_ids = v.same_ids;
  split = v.split;
  known = v.known;
  whole = λ o. absurd (cc o);
  staffed = v.staffed;
  in_order = v.in_order;
  executed = v.executed;
}

Step-Inv : (size : ℕ) (s t : System) → Step s t → Inv size s → Inv size t
Step-Inv size s t (drops id task e) v = v
Step-Inv size s t (enqueues id task e) v = enqueues-Inv size id task s e v
Step-Inv size s t (grows id task e) v = grows-Inv size id task s e v
Step-Inv size s t (takes before after id task p e x) v =
    takes-Inv size id task before after p s e x v
Step-Inv size s t (finishes before after id task e) v = finishes-Inv size id task before after s e v
Step-Inv size s t (exits before after id p e x) v = exits-Inv size id before after s e v p x
Step-Inv size s t (expires before after id idle p e x) v =
    expires-Inv size id before after s e v idle p x
Step-Inv size s t stops v = stops-Inv size s v

count_of-idle_workers : (i : ℕ) (xs : List ℕ) → count_of i (ids (idle_workers xs)) ≡ count_of i xs
unfolding idle_workers
count_of-idle_workers i [] = refl
count_of-idle_workers i (x ∷ xs) = omega (arith, count_of-idle_workers i xs)

idle_workers-rest :
    (xs : List ℕ)
    → (length (idle_workers xs) ≡ length xs)
      × (busy (idle_workers xs) ≡ 0)
      × ((i : ℕ) → in_progress i (idle_workers xs) ≡ 0)
unfolding idle_workers
idle_workers-rest [] = (refl, refl, λ i. refl)
idle_workers-rest (x ∷ xs) =
    let rest = idle_workers-rest xs in
    (omega (arith, rest.0), omega (arith, rest.1), λ i. omega (arith, rest.2 i))

first-Inv : (size : ℕ) (p : ThreadPool) → IsFresh p → Inv size (opened (started_pool 0 size p))
first-Inv size p f =
    let threads = make_threads size 0 [] in
    let total = length-make_threads size 0 [] in
    let rest = idle_workers-rest (make_threads size 0 []) in
    record {
      sized = f.no_count ∙ ap length (sym f.no_tasks);
      room = omega (arith, f.no_count);
      fixed_size = refl;
      enough = omega arith;
      capped = inl (omega arith);
      counted = sym rest.0;
      same_ids = λ i. sym (count_of-idle_workers i (make_threads size 0 []));
      split = omega (arith, rest.1);
      known = omega (arith, rest.0, total);
      whole = λ _. omega (arith, rest.0, total);
      staffed = λ _ _. omega (arith, rest.0, total);
      in_order = sym f.no_tasks;
      executed = λ i. omega (arith, rest.2 i);
    }

pub opened-Inv :
    (size : ℕ) (p q : ThreadPool) → IsFresh p → start_pool 0 size p ≡ some q → Inv size (opened q)
opened-Inv size p q f e =
    subst (λ q. Inv size (opened q)) (some-injective _ _ (sym (start_pool-first 0 size p f) ∙ e))
      (first-Inv size p f)

-- In every state that the first pool of a program reaches after start(), if it had no tasks and no
-- threads before, with its threads, the submitters and the destructor interleaved in any order, and
-- with tasks that are submitted before and after the destructor has stopped the pool: the counters
-- agree with the tasks and, while the pool is open, with the threads; the queue and the threads stay in
-- their bounds; the accepted tasks are those taken, in order, before those that wait in the queue; and
-- each task that was taken has run or is being run.
pub Reach-Inv : {size : ℕ} {s : System} → Reach size s → Inv size s
Reach-Inv (starts p q f e) = opened-Inv _ p q f e
Reach-Inv (later r st) = Step-Inv _ _ _ st (Reach-Inv r)
