-- ===== src/ThreadPool/Pool.antt =====
-- ThreadPool (chat/include/threadpool.h), as between two holders of its lock. A task is its number.
use learn_git.Base.{
  ℕ, zero, suc, ◌+◌, ◌-◌, List, [], ◌∷◌, ◌++◌, Bool, true, false, ◌&&◌, not, ltb, ◌==◌,
  if◌then◌else◌, Option, none, some, length, is_empty,
}

pub data PoolMode : Type 0 where
  fixed cache : PoolMode

abbrev pub is_cache : PoolMode → Bool
is_cache cache = true
is_cache fixed = false

-- `threads` are the ids of the map; ids are drawn from a counter that all pools share.
pub record ThreadPool : Type 0 where
  pub threads : List ℕ
  pub init_thread_size : ℕ
  pub free_thread_size : ℕ
  pub now_thread_size : ℕ
  pub max_thread_size : ℕ
  pub task_que : List ℕ
  pub task_size : ℕ
  pub task_max_size : ℕ
  pub pool_mode : PoolMode
  pub is_start : Bool

unfoldable pub new_thread_pool : ThreadPool
new_thread_pool = record {
  threads = [];
  init_thread_size = 4;
  free_thread_size = 0;
  now_thread_size = 0;
  max_thread_size = 100;
  task_que = [];
  task_size = 0;
  task_max_size = 5;
  pool_mode = fixed;
  is_start = false;
}

unfoldable pub set_mode : PoolMode → ThreadPool → ThreadPool
set_mode mode p = if p.is_start then p else record p { pool_mode = mode }

unfoldable pub set_init_thread_size : ℕ → ThreadPool → ThreadPool
set_init_thread_size size p = if p.is_start then p else record p { init_thread_size = size }

unfoldable pub set_task_max_size : ℕ → ThreadPool → ThreadPool
set_task_max_size size p = if p.is_start then p else record p { task_max_size = size }

unfoldable pub set_max_thread_size : ℕ → ThreadPool → ThreadPool
set_max_thread_size size p =
    if p.is_start
    then p
    else if is_cache p.pool_mode
    then record p { max_thread_size = size }
    else p

-- The first loop of start: so many ids from the counter on.
unfoldable pub make_threads : ℕ → ℕ → List ℕ → List ℕ
make_threads zero id ids = ids
make_threads (suc rounds) id ids = make_threads rounds (id + 1) (ids ++ id ∷ [])

unfoldable pub has_thread : ℕ → List ℕ → Bool
has_thread id [] = false
has_thread id (j ∷ js) = let rest = has_thread id js in if j == id then true else rest

-- The second loop: threads_[i]->start() for each i; `none` is the call on a thread that is not there.
unfoldable pub start_threads : ℕ → ℕ → ThreadPool → Option ThreadPool
unfolding has_thread
start_threads zero i p = some p
start_threads (suc rounds) i p =
    let rest =
      start_threads rounds (i + 1) (record p { free_thread_size = p.free_thread_size + 1 }) in
    if has_thread i p.threads then rest else none

-- start, with the counter at `next_id`.
unfoldable pub start_pool : ℕ → ℕ → ThreadPool → Option ThreadPool
unfolding make_threads start_threads
start_pool next_id size p = start_threads size 0 (record p {
  is_start = true;
  init_thread_size = size;
  now_thread_size = size;
  threads = make_threads size next_id p.threads;
})

-- Whether submitTask makes another thread, once the task is in the queue.
unfoldable pub wants_thread : ThreadPool → Bool
wants_thread p =
    is_cache p.pool_mode
    && (ltb p.free_thread_size (length p.task_que) && ltb p.now_thread_size p.max_thread_size)

unfoldable pub add_thread : ℕ → ThreadPool → ThreadPool
add_thread id p = record p {
  threads = p.threads ++ id ∷ [];
  now_thread_size = p.now_thread_size + 1;
  free_thread_size = p.free_thread_size + 1;
}

unfoldable pub enqueue : ℕ → ThreadPool → ThreadPool
enqueue task p = record p { task_que = p.task_que ++ task ∷ []; task_size = p.task_size + 1 }

-- submitTask when the queue has room, or when a second has passed: the second part is false for a
-- task that is dropped, whose future holds a default value.
unfoldable pub submit_task : ℕ → ℕ → ThreadPool → ThreadPool × Bool
unfolding wants_thread add_thread enqueue
submit_task next_id task p =
    if not (ltb p.task_size p.task_max_size)
    then (p, false)
    else if wants_thread (enqueue task p)
    then (add_thread next_id (enqueue task p), true)
    else (enqueue task p, true)

-- threadfunc with a task in the queue: the front is taken.
unfoldable pub take_task : ThreadPool → Option (ThreadPool × ℕ)
take_task p = if p.task_size == 0 then none else elim p.task_que [
  | [] ↦ none
  | t ∷ ts ↦ some (
    record p {
      free_thread_size = p.free_thread_size - 1;
      task_que = ts;
      task_size = p.task_size - 1;
    },
    t,
  )
]

-- After the task has run.
unfoldable pub finish_task : ThreadPool → ThreadPool
finish_task p = record p { free_thread_size = p.free_thread_size + 1 }

unfoldable pub erase_thread : ℕ → List ℕ → List ℕ
erase_thread id [] = []
erase_thread id (j ∷ js) = let rest = erase_thread id js in if j == id then js else j ∷ rest

-- threadfunc without a task, in a pool that has been stopped: the thread ends.
unfoldable pub exit_thread : ℕ → ThreadPool → Option ThreadPool
unfolding erase_thread
exit_thread id p =
    if p.task_size == 0 && not p.is_start
    then some (record p { threads = erase_thread id p.threads })
    else none

-- threadfunc after a wait of a second in cache mode that has timed out; `idle` are the whole seconds
-- since the thread's last task. What the thread saw before the wait is not tested again.
unfoldable pub expire_thread : ℕ → ℕ → ThreadPool → Option ThreadPool
unfolding erase_thread
expire_thread id idle p =
    if is_cache p.pool_mode && (ltb 10 idle && ltb p.init_thread_size p.now_thread_size)
    then some (record p {
      threads = erase_thread id p.threads;
      now_thread_size = p.now_thread_size - 1;
      free_thread_size = p.free_thread_size - 1;
    })
    else none

-- The destructor's first statement, and the condition that it then waits for.
unfoldable pub stop : ThreadPool → ThreadPool
stop p = record p { is_start = false }

abbrev pub is_over : ThreadPool → Bool
is_over p = is_empty p.threads
