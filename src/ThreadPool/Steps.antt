-- ===== src/ThreadPool/Steps.antt =====
-- The threads of a pool and those that submit tasks, interleaved in any order, from the end of
-- start() to the end of the destructor.
use learn_git.Base.{
  ℕ, List, [], ◌∷◌, ◌++◌, true, false, ◌≡◌, Option, none, some, if◌then◌else◌, suc,
}
use learn_git.ThreadPool.Pool.{
  ThreadPool, submit_task, take_task, finish_task, exit_thread, expire_thread, stop, enqueue,
  add_thread, start_pool,
}

-- A thread of the pool: its id, and the task that it runs.
pub record Worker : Type 0 where
  pub id : ℕ
  pub job : Option ℕ

-- The tasks that submitTask accepted and those that threads have taken, in order, those that have run,
-- newest first, and how many were accepted after the destructor had stopped the pool.
pub record System : Type 0 where
  pub pool : ThreadPool
  pub workers : List Worker
  pub accepted : List ℕ
  pub taken : List ℕ
  pub finished : List ℕ
  pub late : ℕ

abbrev pub idle_worker : ℕ → Worker
idle_worker id = record { id = id; job = none }

abbrev pub busy_worker : ℕ → ℕ → Worker
busy_worker id task = record { id = id; job = some task }

-- The count of late tasks once another task is accepted.
abbrev pub late_after : System → ℕ
late_after s = if s.pool.is_start then s.late else suc s.late

-- Tasks can be submitted before and after the destructor has stopped the pool.
pub data Step (s : System) : System → Type 0 where
  drops : (id task : ℕ) → (submit_task id task s.pool).1 ≡ false → Step s s
  enqueues :
      (id task : ℕ)
      → submit_task id task s.pool ≡ (enqueue task s.pool, true)
      → Step s (record s {
        pool = enqueue task s.pool;
        accepted = s.accepted ++ task ∷ [];
        late = late_after s;
      })
  grows :
      (id task : ℕ)
      → submit_task id task s.pool ≡ (add_thread id (enqueue task s.pool), true)
      → Step s (record s {
        pool = add_thread id (enqueue task s.pool);
        workers = s.workers ++ idle_worker id ∷ [];
        accepted = s.accepted ++ task ∷ [];
        late = late_after s;
      })
  takes :
      (before after : List Worker) (id task : ℕ) (p : ThreadPool)
      → s.workers ≡ before ++ idle_worker id ∷ after
      → take_task s.pool ≡ some (p, task)
      → Step s (record s {
        pool = p;
        workers = before ++ busy_worker id task ∷ after;
        taken = s.taken ++ task ∷ [];
      })
  finishes :
      (before after : List Worker) (id task : ℕ)
      → s.workers ≡ before ++ busy_worker id task ∷ after
      → Step s (record s {
        pool = finish_task s.pool;
        workers = before ++ idle_worker id ∷ after;
        finished = task ∷ s.finished;
      })
  exits :
      (before after : List Worker) (id : ℕ) (p : ThreadPool)
      → s.workers ≡ before ++ idle_worker id ∷ after
      → exit_thread id s.pool ≡ some p
      → Step s (record s { pool = p; workers = before ++ after })
  expires :
      (before after : List Worker) (id idle : ℕ) (p : ThreadPool)
      → s.workers ≡ before ++ idle_worker id ∷ after
      → expire_thread id idle s.pool ≡ some p
      → Step s (record s { pool = p; workers = before ++ after })
  stops : Step s (record s { pool = stop s.pool })

-- Threads 0, 1, ..., each with nothing to do.
unfoldable pub idle_workers : List ℕ → List Worker
idle_workers [] = []
idle_workers (id ∷ ids) = idle_worker id ∷ idle_workers ids

abbrev pub opened : ThreadPool → System
opened p = record {
  pool = p;
  workers = idle_workers p.threads;
  accepted = [];
  taken = [];
  finished = [];
  late = 0;
}

-- A pool before start(), at its default or with other sizes set.
pub record IsFresh (p : ThreadPool) : Type 0 where
  pub no_tasks : p.task_que ≡ []
  pub no_count : p.task_size ≡ 0
  pub no_threads : p.threads ≡ []
  pub no_free : p.free_thread_size ≡ 0

-- From a pool that start() has started with `size` threads.
pub data Reach (size : ℕ) : System → Type 0 where
  starts : (p q : ThreadPool) → IsFresh p → start_pool 0 size p ≡ some q → Reach size (opened q)
  later : {s t : System} → Reach size s → Step s t → Reach size t
