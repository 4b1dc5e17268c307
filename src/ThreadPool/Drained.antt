-- ===== src/ThreadPool/Drained.antt =====
-- The end of a pool: when its map of threads is empty, which tasks have run.

use native.Mathlib.Decide.{dec_le}
use learn_git.ThreadPool.Leaving.{Reach-Inv}
use learn_git.ThreadPool.Sums.{count_of, in_progress, count_of-append}
use learn_git.Base.{ℕ, ◌≡◌, ◌<◌, refl, ap, List, [], ◌∷◌, arith, length, sym, ◌∙◌, ◌+◌}
use learn_git.ThreadPool.Steps.{Worker, System, Reach}

no_members : (i : ℕ) (ws : List Worker) → length ws ≡ 0 → in_progress i ws ≡ 0
no_members i [] e = refl
no_members i (w ∷ ws) e = absurd (omega arith)

no_elements : (xs : List ℕ) → length xs ≡ 0 → xs ≡ []
no_elements [] e = refl
no_elements (x ∷ xs) e = absurd (omega arith)

-- When the map of threads is empty, the accepted tasks that have not run are those that wait.
empty_map-accepted :
    {size : ℕ} {s : System}
    → Reach size s
    → s.pool.threads ≡ []
    → (i : ℕ) → count_of i s.accepted ≡ count_of i s.finished + count_of i s.pool.task_que
empty_map-accepted {s} r e i =
    let v = Reach-Inv r in
    let gone : length s.workers ≡ 0 = sym v.counted ∙ ap length e in
    omega (
      arith,
      ap (count_of i) v.in_order ∙ count_of-append i s.taken s.pool.task_que,
      v.executed i,
      no_members i s.workers gone,
    )

-- When the map of threads of the first pool of a program, started with one thread or more and without
-- tasks or threads before, is empty, which is what the destructor waits for, and no task was accepted
-- after the destructor had stopped the pool, no task waits, and every task that was accepted has run,
-- as often as it was accepted.
pub no_task_lost :
    {size : ℕ} {s : System}
    → 0 < size
    → Reach size s
    → s.late ≡ 0
    → s.pool.threads ≡ []
    → (s.pool.task_que ≡ []) × ((i : ℕ) → count_of i s.accepted ≡ count_of i s.finished)
no_task_lost {s} some_thread r on_time e =
    let v = Reach-Inv r in
    let gone : length s.workers ≡ 0 = sym v.counted ∙ ap length e in
    let done : s.pool.task_size ≡ 0 = elim (dec_le 1 s.pool.task_size) [
      | yes h ↦ absurd (omega (arith, v.staffed on_time h, gone, v.enough, some_thread))
      | no h ↦ omega arith
    ] in
    let empty = no_elements s.pool.task_que (sym v.sized ∙ done) in
    (empty, λ i. omega (arith, empty_map-accepted r e i, ap (count_of i) empty))
