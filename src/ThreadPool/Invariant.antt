-- ===== src/ThreadPool/Invariant.antt =====
-- What holds in every state of a started pool.
use mathlib.Core.List.{append_assoc}
use learn_git.ThreadPool.Sums.{
  count_of, split_at, ids, split_here, busy, in_progress, joined, count_of-append, busy-le-length,
}
use learn_git.Base.{
  ℕ, suc, ◌+◌, ◌-◌, ◌≡◌, ◌≤◌, ◌<◌, ap, List, [], ◌∷◌, ◌++◌, arith, length, length-append, Bool,
  true, some, ◌⊎◌, ◌∙◌, inr, subst, sym,
}
use learn_git.ThreadPool.Pool.{
  ThreadPool, enqueue, add_thread, wants_thread, submit_task, take_task, finish_task,
}
use learn_git.ThreadPool.Steps.{Worker, System, late_after, idle_worker, busy_worker}

-- The counters agree with the threads and the tasks; tasks are taken in the order in which they were
-- accepted, and each that was taken has run or is being run. While the pool is open no thread has left
-- uncounted, and neither while it has tasks of which none was accepted late.
pub record Inv (size : ℕ) (s : System) : Type 0 where
  pub sized : s.pool.task_size ≡ length s.pool.task_que
  pub room : s.pool.task_size ≤ s.pool.task_max_size
  pub fixed_size : s.pool.init_thread_size ≡ size
  pub enough : size ≤ s.pool.now_thread_size
  pub capped : (s.pool.now_thread_size ≤ size) ⊎ (s.pool.now_thread_size ≤ s.pool.max_thread_size)
  pub counted : length s.pool.threads ≡ length s.workers
  pub same_ids : (i : ℕ) → count_of i s.pool.threads ≡ count_of i (ids s.workers)
  pub split : s.pool.free_thread_size + busy s.workers ≡ s.pool.now_thread_size
  pub known : length s.workers ≤ s.pool.now_thread_size
  pub whole : s.pool.is_start ≡ true → s.pool.now_thread_size ≡ length s.workers
  pub staffed : s.late ≡ 0 → 0 < s.pool.task_size → s.pool.now_thread_size ≡ length s.workers
  pub in_order : s.accepted ≡ s.taken ++ s.pool.task_que
  pub executed : (i : ℕ) → count_of i s.taken ≡ count_of i s.finished + in_progress i s.workers

pub submit_room :
    (id task : ℕ) (p : ThreadPool)
    → (submit_task id task p).1 ≡ true
    → p.task_size < p.task_max_size
unfolding submit_task
submit_room id task p h = ground arith

-- submitTask makes a thread only below the maximal number.
submit_grows :
    (id task : ℕ) (p : ThreadPool)
    → (submit_task id task p).0.now_thread_size ≡ p.now_thread_size + 1
    → p.now_thread_size < p.max_thread_size
unfolding submit_task wants_thread enqueue add_thread
submit_grows id task p h = ground arith

pub take_task-takes :
    (p q : ThreadPool) (task : ℕ)
    → take_task p ≡ some (q, task)
    → (ts : List ℕ) × (p.task_que ≡ task ∷ ts)
      × (q ≡ record p {
        free_thread_size = p.free_thread_size - 1;
        task_que = ts;
        task_size = p.task_size - 1;
      })
unfolding take_task
take_task-takes p q task e = ground arith

-- A task that is not late is accepted while the pool is open.
on_time : (s : System) → late_after s ≡ 0 → s.pool.is_start ≡ true
on_time s h = ground (arith, h)

pub enqueues-Inv :
    (size id task : ℕ) (s : System)
    → submit_task id task s.pool ≡ (enqueue task s.pool, true)
    → Inv size s
    → Inv size (record s {
      pool = enqueue task s.pool;
      accepted = s.accepted ++ task ∷ [];
      late = late_after s;
    })
unfolding enqueue
enqueues-Inv size id task s e v = record {
  sized = omega (arith, v.sized, length-append s.pool.task_que (task ∷ []));
  room = omega (arith, submit_room id task s.pool (ap (λ (r : ThreadPool × Bool). r.1) e));
  fixed_size = v.fixed_size;
  enough = v.enough;
  capped = v.capped;
  counted = v.counted;
  same_ids = v.same_ids;
  split = v.split;
  known = v.known;
  whole = v.whole;
  staffed = λ l t. v.whole (on_time s l);
  in_order =
      ap (λ (xs : List ℕ). xs ++ task ∷ []) v.in_order
      ∙ append_assoc s.taken s.pool.task_que (task ∷ []);
  executed = v.executed;
}

pub grows-Inv :
    (size id task : ℕ) (s : System)
    → submit_task id task s.pool ≡ (add_thread id (enqueue task s.pool), true)
    → Inv size s
    → Inv size (record s {
      pool = add_thread id (enqueue task s.pool);
      workers = s.workers ++ idle_worker id ∷ [];
      accepted = s.accepted ++ task ∷ [];
      late = late_after s;
    })
unfolding enqueue add_thread
grows-Inv size id task s e v =
    let new = split_here s.workers [] (idle_worker id) in
    let threads = length-append s.pool.threads (id ∷ []) in
    record {
      sized = omega (arith, v.sized, length-append s.pool.task_que (task ∷ []));
      room = omega (arith, submit_room id task s.pool (ap (λ (r : ThreadPool × Bool). r.1) e));
      fixed_size = v.fixed_size;
      enough = omega (arith, v.enough);
      capped = inr (
          omega (
            arith,
            submit_grows id task s.pool (ap (λ (r : ThreadPool × Bool). r.0.now_thread_size) e),
          ));
      counted = omega (arith, v.counted, threads, new.count);
      same_ids = λ i.
          omega (arith, v.same_ids i, count_of-append i s.pool.threads (id ∷ []), new.ids_sum i);
      split = omega (arith, v.split, new.busy_sum);
      known = omega (arith, v.known, new.count);
      whole = λ o. omega (arith, v.whole o, new.count);
      staffed = λ l t. omega (arith, v.whole (on_time s l), new.count);
      in_order =
          ap (λ (xs : List ℕ). xs ++ task ∷ []) v.in_order
          ∙ append_assoc s.taken s.pool.task_que (task ∷ []);
      executed = λ i. omega (arith, v.executed i, new.progress_sum i);
    }

pub takes-Inv :
    (size id task : ℕ) (before after : List Worker) (p : ThreadPool) (s : System)
    → s.workers ≡ before ++ idle_worker id ∷ after
    → take_task s.pool ≡ some (p, task)
    → Inv size s
    → Inv size (record s {
      pool = p;
      workers = before ++ busy_worker id task ∷ after;
      taken = s.taken ++ task ∷ [];
    })
takes-Inv size id task before after p s e t v =
    let q = take_task-takes s.pool p task t in
    let old = split_at before after (idle_worker id) e in
    let new = split_here before after (busy_worker id task) in
    let queued : length s.pool.task_que ≡ suc (length q.0) = ap length q.1 in
    let some_left : 0 < s.pool.task_size = omega (arith, v.sized, queued) in
    let others = joined before after in
    let quiet = busy-le-length (before ++ after) in
    subst
      (λ p. Inv size (record s {
        pool = p;
        workers = before ++ busy_worker id task ∷ after;
        taken = s.taken ++ task ∷ [];
      }))
      (sym q.2)
      (record {
        sized = omega (arith, v.sized, queued);
        room = omega (arith, v.room);
        fixed_size = v.fixed_size;
        enough = v.enough;
        capped = v.capped;
        counted = omega (arith, v.counted, old.count, new.count);
        same_ids = λ i. omega (arith, v.same_ids i, old.ids_sum i, new.ids_sum i);
        split = omega (
          arith, v.split, v.known, old.count, old.busy_sum, new.busy_sum, others.count,
          others.busy_sum, quiet,
        );
        known = omega (arith, v.known, old.count, new.count);
        whole = λ o. omega (arith, v.whole o, old.count, new.count);
        staffed = λ l t. omega (arith, v.staffed l some_left, old.count, new.count);
        in_order =
            v.in_order
            ∙ ap (λ (xs : List ℕ). s.taken ++ xs) q.1
            ∙ sym (append_assoc s.taken (task ∷ []) q.0);
        executed = λ i. omega (
          arith,
          v.executed i,
          count_of-append i s.taken (task ∷ []),
          old.progress_sum i,
          new.progress_sum i,
        );
      })

pub finishes-Inv :
    (size id task : ℕ) (before after : List Worker) (s : System)
    → s.workers ≡ before ++ busy_worker id task ∷ after
    → Inv size s
    → Inv size (record s {
      pool = finish_task s.pool;
      workers = before ++ idle_worker id ∷ after;
      finished = task ∷ s.finished;
    })
unfolding finish_task
finishes-Inv size id task before after s e v =
    let old = split_at before after (busy_worker id task) e in
    let new = split_here before after (idle_worker id) in
    record {
      sized = v.sized;
      room = v.room;
      fixed_size = v.fixed_size;
      enough = v.enough;
      capped = v.capped;
      counted = omega (arith, v.counted, old.count, new.count);
      same_ids = λ i. omega (arith, v.same_ids i, old.ids_sum i, new.ids_sum i);
      split = omega (arith, v.split, old.busy_sum, new.busy_sum);
      known = omega (arith, v.known, old.count, new.count);
      whole = λ h. omega (arith, v.whole h, old.count, new.count);
      staffed = λ l t. omega (arith, v.staffed l t, old.count, new.count);
      in_order = v.in_order;
      executed = λ i. omega (arith, v.executed i, old.progress_sum i, new.progress_sum i);
    }
