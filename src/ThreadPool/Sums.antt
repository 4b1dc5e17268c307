-- ===== src/ThreadPool/Sums.antt =====
-- Sums over the threads of a pool, and over its tasks.
use learn_git.Base.{
  ℕ, suc, ◌+◌, ◌≡◌, ◌≤◌, ◌<◌, refl, List, [], ◌∷◌, ◌++◌, arith, length, none, some, ◌==◌,
  if◌then◌else◌, subst, Bool-cases, sym, inl, inr,
}
use learn_git.ThreadPool.Pool.{erase_thread}
use learn_git.ThreadPool.Steps.{Worker}

abbrev pub count_of : ℕ → List ℕ → ℕ
count_of i [] = 0
count_of i (x ∷ xs) = (if x == i then 1 else 0) + count_of i xs

abbrev pub is_busy : Worker → ℕ
is_busy w = elim w.job [ none ↦ 0 | some _ ↦ 1 ]

abbrev pub busy : List Worker → ℕ
busy [] = 0
busy (w ∷ ws) = is_busy w + busy ws

abbrev pub runs : ℕ → Worker → ℕ
runs i w = elim w.job [ none ↦ 0 | some t ↦ if t == i then 1 else 0 ]

-- How many threads run the task.
abbrev pub in_progress : ℕ → List Worker → ℕ
in_progress i [] = 0
in_progress i (w ∷ ws) = runs i w + in_progress i ws

abbrev pub ids : List Worker → List ℕ
ids [] = []
ids (w ∷ ws) = w.id ∷ ids ws

pub count_of-append :
    (i : ℕ) (xs ys : List ℕ) → count_of i (xs ++ ys) ≡ count_of i xs + count_of i ys
count_of-append i [] ys = omega arith
count_of-append i (x ∷ xs) ys = omega (arith, count_of-append i xs ys)

-- The sums over the workers, split at one of them.
pub record Split (before after : List Worker) (w : Worker) (ws : List Worker) : Type 0 where
  pub count : length ws ≡ length before + suc (length after)
  pub busy_sum : busy ws ≡ busy before + (is_busy w + busy after)
  pub progress_sum :
      (i : ℕ) → in_progress i ws ≡ in_progress i before + (runs i w + in_progress i after)
  pub ids_sum :
      (i : ℕ)
      → count_of i (ids ws)
        ≡ count_of i (ids before) + ((if w.id == i then 1 else 0) + count_of i (ids after))

pub split_here :
    (before after : List Worker) (w : Worker) → Split before after w (before ++ w ∷ after)
split_here [] after w = record {
  count = omega arith;
  busy_sum = omega arith;
  progress_sum = λ i. omega arith;
  ids_sum = λ i. omega arith;
}
split_here (b ∷ before) after w =
    let rest = split_here before after w in
    record {
      count = omega (arith, rest.count);
      busy_sum = omega (arith, rest.busy_sum);
      progress_sum = λ i. omega (arith, rest.progress_sum i);
      ids_sum = λ i. omega (arith, rest.ids_sum i);
    }

pub split_at :
    (before after : List Worker) (w : Worker) {ws : List Worker}
    → ws ≡ before ++ w ∷ after
    → Split before after w ws
split_at before after w e = subst (Split before after w) (sym e) (split_here before after w)

-- The sums without the worker.
pub record Joined (before after ws : List Worker) : Type 0 where
  pub count : length ws ≡ length before + length after
  pub busy_sum : busy ws ≡ busy before + busy after
  pub progress_sum : (i : ℕ) → in_progress i ws ≡ in_progress i before + in_progress i after
  pub ids_sum : (i : ℕ) → count_of i (ids ws) ≡ count_of i (ids before) + count_of i (ids after)

pub joined : (before after : List Worker) → Joined before after (before ++ after)
joined [] after = record {
  count = omega arith;
  busy_sum = omega arith;
  progress_sum = λ i. omega arith;
  ids_sum = λ i. omega arith;
}
joined (b ∷ before) after =
    let rest = joined before after in
    record {
      count = omega (arith, rest.count);
      busy_sum = omega (arith, rest.busy_sum);
      progress_sum = λ i. omega (arith, rest.progress_sum i);
      ids_sum = λ i. omega (arith, rest.ids_sum i);
    }

pub busy-le-length : (ws : List Worker) → busy ws ≤ length ws
busy-le-length [] = omega arith
busy-le-length (w ∷ ws) = ground (arith, busy-le-length ws)

-- Erasing a thread that is there takes it off once.
pub erase_thread-count_of :
    (id : ℕ) (xs : List ℕ)
    → 0 < count_of id xs
    → (suc (length (erase_thread id xs)) ≡ length xs)
      × ((i : ℕ) → count_of i xs ≡ (if id == i then 1 else 0) + count_of i (erase_thread id xs))
unfolding erase_thread
erase_thread-count_of id [] h = absurd (omega arith)
erase_thread-count_of id (x ∷ xs) h = elim (Bool-cases (x == id)) [
  | inl t ↦ rw t (refl, λ i. ground arith)
  | inr f ↦
      let rest = erase_thread-count_of id xs (ground arith) in
      rw f (omega (arith, rest.0), λ i. omega (arith, rest.1 i))
]
