-- ===== src/ThreadPool/Examples.antt =====
-- The theorems about the thread pool at a pool of one thread, of which one task is run.
use learn_git.ThreadPool.Drained.{no_task_lost}
use learn_git.ThreadPool.Leaving.{Reach-Inv}
use learn_git.ThreadPool.Fifo.{QueueStep, step-QueueStep}
use learn_git.ThreadPool.Invariant.{Inv}
use learn_git.ThreadPool.Sums.{count_of}
use learn_git.Base.{ℕ, List, [], ◌∷◌, Bool, true, false, ◌≡◌, refl, arith}
use learn_git.ThreadPool.Pool.{
  submit_task, ThreadPool, fixed, new_thread_pool, start_pool, enqueue, take_task, finish_task,
  stop, exit_thread, make_threads, erase_thread, start_threads, wants_thread, has_thread,
}
use learn_git.ThreadPool.Steps.{
  System, Step, idle_worker, busy_worker, enqueues, takes, finishes, exits, stops, Reach, starts,
  later, IsFresh, opened, idle_workers,
}

abbrev fresh_pool : ThreadPool
fresh_pool = new_thread_pool

fresh_pool-IsFresh : IsFresh fresh_pool
unfolding new_thread_pool
fresh_pool-IsFresh = record { no_tasks = refl; no_count = refl; no_threads = refl; no_free = refl }

-- The pool with so many tasks and free threads, its one thread and its state.
abbrev one_thread : List ℕ → List ℕ → ℕ → ℕ → Bool → ThreadPool
one_thread threads tasks waiting free is_start = record {
  threads = threads;
  init_thread_size = 1;
  free_thread_size = free;
  now_thread_size = 1;
  max_thread_size = 100;
  task_que = tasks;
  task_size = waiting;
  task_max_size = 5;
  pool_mode = fixed;
  is_start = is_start;
}

abbrev waiting_task : System
waiting_task = record {
  pool = one_thread (0 ∷ []) (7 ∷ []) 1 1 true;
  workers = idle_worker 0 ∷ [];
  accepted = 7 ∷ [];
  taken = [];
  finished = [];
  late = 0;
}

abbrev all_done : System
all_done = record {
  pool = one_thread [] [] 0 1 false;
  workers = [];
  accepted = 7 ∷ [];
  taken = 7 ∷ [];
  finished = 7 ∷ [];
  late = 0;
}

at_first : Reach 1 (opened (one_thread (0 ∷ []) [] 0 1 true))
unfolding new_thread_pool start_pool make_threads start_threads has_thread
at_first = starts fresh_pool (one_thread (0 ∷ []) [] 0 1 true) fresh_pool-IsFresh refl

with_task : Reach 1 waiting_task
unfolding submit_task enqueue wants_thread idle_workers
with_task = later at_first (enqueues 1 7 refl)

taken_task : Step waiting_task (record {
  pool = one_thread (0 ∷ []) [] 0 0 true;
  workers = busy_worker 0 7 ∷ [];
  accepted = 7 ∷ [];
  taken = 7 ∷ [];
  finished = [];
  late = 0;
})
unfolding take_task
taken_task = takes [] [] 0 7 (one_thread (0 ∷ []) [] 0 0 true) refl refl

to_the_end : Reach 1 all_done
unfolding finish_task exit_thread erase_thread stop
to_the_end =
    later (later (later (later with_task taken_task) (finishes [] [] 0 7 refl)) stops)
      (exits [] [] 0 (one_thread [] [] 0 1 false) refl refl)

-- A task that is submitted once the last thread has left waits in a pool without threads.
abbrev lost_task : System
lost_task = record all_done {
  pool = one_thread [] (8 ∷ []) 1 1 false;
  accepted = 7 ∷ 8 ∷ [];
  late = 1;
}

to_the_lost_task : Reach 1 lost_task
unfolding submit_task enqueue wants_thread
to_the_lost_task = later to_the_end (enqueues 1 8 refl)

Reach-Inv_example : Inv 1 lost_task
Reach-Inv_example = Reach-Inv to_the_lost_task

step-QueueStep_example : QueueStep 5 (7 ∷ []) []
step-QueueStep_example = step-QueueStep with_task taken_task

no_task_lost_example :
    (◌≡◌ {A = List ℕ} [] [])
    × ((i : ℕ) → count_of i all_done.accepted ≡ count_of i all_done.finished)
no_task_lost_example = no_task_lost (omega arith) to_the_end refl refl
