-- ===== src/ThreadPool/Fifo.antt =====
-- The pool as a queue of tasks.
use learn_git.ThreadPool.Leaving.{Reach-Inv, exit_thread_lem, expire_thread_lem}
use learn_git.ThreadPool.Invariant.{submit_room, take_task-takes}
use learn_git.Base.{ℕ, ◌≡◌, ◌<◌, ap, subst, sym, List, [], ◌∷◌, ◌++◌, arith, length, Bool, true}
use learn_git.ThreadPool.Pool.{ThreadPool, enqueue, add_thread, submit_task, finish_task, stop}
use learn_git.ThreadPool.Steps.{
  System, Step, drops, enqueues, grows, takes, finishes, exits, expires, stops, Reach,
}

-- A first-in, first-out queue of bounded length.
pub data QueueStep (capacity : ℕ) : List ℕ → List ℕ → Type 0 where
  put : (q : List ℕ) (task : ℕ) → length q < capacity → QueueStep capacity q (q ++ task ∷ [])
  get : (q : List ℕ) (task : ℕ) → QueueStep capacity (task ∷ q) q
  stay : (q : List ℕ) → QueueStep capacity q q

kept : (capacity : ℕ) (q r : List ℕ) → q ≡ r → QueueStep capacity q r
kept capacity q r e = subst (QueueStep capacity q) e (stay q)

room :
    {size : ℕ} (s : System) (id task : ℕ) (p : ThreadPool)
    → Reach size s
    → submit_task id task s.pool ≡ (p, true)
    → length s.pool.task_que < s.pool.task_max_size
room s id task p r e =
    omega (
      arith,
      submit_room id task s.pool (ap (λ (x : ThreadPool × Bool). x.1) e),
      (Reach-Inv r).sized,
    )

-- Every step that the first pool of a program takes after start(), if it had no tasks and no threads
-- before, submissions to a pool that its destructor has stopped included, is a step of a bounded
-- first-in, first-out queue on its waiting tasks, or leaves them as they are.
pub step-QueueStep :
    {size : ℕ} {s t : System}
    → Reach size s
    → Step s t
    → QueueStep s.pool.task_max_size s.pool.task_que t.pool.task_que
step-QueueStep r (drops id task e) = stay _
step-QueueStep {s} r (enqueues id task e) =
    unfold enqueue in put s.pool.task_que task (room s id task _ r e)
step-QueueStep {s} r (grows id task e) =
    unfold enqueue add_thread in put s.pool.task_que task (room s id task _ r e)
step-QueueStep {s} r (takes before after id task p e x) =
    let q = take_task-takes s.pool p task x in
    subst (λ (p : ThreadPool). QueueStep s.pool.task_max_size s.pool.task_que p.task_que) (sym q.2)
      (subst (λ ts. QueueStep s.pool.task_max_size ts q.0) (sym q.1) (get q.0 task))
step-QueueStep r (finishes before after id task e) = unfold finish_task in stay _
step-QueueStep {s} r (exits before after id p e x) =
    kept _ _ _ (ap (λ (p : ThreadPool). p.task_que) (sym (exit_thread_lem id s.pool p x).0))
step-QueueStep {s} r (expires before after id idle p e x) =
    kept _ _ _ (ap (λ (p : ThreadPool). p.task_que) (sym (expire_thread_lem id idle s.pool p x).0))
step-QueueStep r stops = unfold stop in stay _
