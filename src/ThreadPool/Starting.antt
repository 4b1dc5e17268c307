-- ===== src/ThreadPool/Starting.antt =====
-- How a pool starts: start() numbers its threads from a counter that all pools share, and starts
-- them by the numbers from 0 on.
use learn_git.Base.{
  ℕ, zero, suc, ◌+◌, ◌≡◌, ◌≤◌, ◌<◌, ap, List, [], ◌∷◌, ◌++◌, arith, length, length-append, true,
  false, ◌||◌, ◌&&◌, leb, ltb, ◌==◌, if◌then◌else◌, none, some, sym, ◌∙◌, ◌⊎◌, Bool-cases, inl, inr,
}
use learn_git.ThreadPool.Pool.{ThreadPool, make_threads, has_thread, start_threads, start_pool}
use learn_git.ThreadPool.Steps.{IsFresh}

has_thread-append :
    (i : ℕ) (ids : List ℕ) (id : ℕ)
    → has_thread i (ids ++ id ∷ []) ≡ (has_thread i ids || (id == i))
unfolding has_thread
has_thread-append i [] id = ground arith
has_thread-append i (j ∷ js) id = ground (arith, has_thread-append i js id)

has_thread-make_threads :
    (rounds id i : ℕ) (ids : List ℕ)
    → has_thread i (make_threads rounds id ids)
      ≡ (has_thread i ids || (leb id i && ltb i (id + rounds)))
unfolding make_threads
has_thread-make_threads zero id i ids = ground arith
has_thread-make_threads (suc rounds) id i ids =
    ground (
      arith,
      has_thread-make_threads rounds (id + 1) i (ids ++ id ∷ []),
      has_thread-append i ids id,
    )

pub length-make_threads :
    (rounds id : ℕ) (ids : List ℕ) → length (make_threads rounds id ids) ≡ length ids + rounds
unfolding make_threads
length-make_threads zero id ids = omega arith
length-make_threads (suc rounds) id ids =
    omega (arith, length-make_threads rounds (id + 1) (ids ++ id ∷ []), length-append ids (id ∷ []))

start_threads_all :
    (rounds i : ℕ) (p : ThreadPool)
    → ((j : ℕ) → i ≤ j → j < i + rounds → has_thread j p.threads ≡ true)
    → start_threads rounds i p ≡ some (record p { free_thread_size = p.free_thread_size + rounds })
unfolding start_threads
start_threads_all zero i p h =
    let e : p.free_thread_size + 0 ≡ p.free_thread_size = omega arith in
    ap (λ k. some (record p { free_thread_size = k })) (sym e)
start_threads_all (suc rounds) i p h =
    let e : p.free_thread_size + 1 + rounds ≡ p.free_thread_size + suc rounds = omega arith in
    rw (h i (omega arith) (omega arith)) (
      start_threads_all rounds (i + 1) (record p { free_thread_size = p.free_thread_size + 1 })
        (λ j a b. h j (omega arith) (omega arith))
      ∙ ap (λ k. some (record p { free_thread_size = k })) e)

-- The pool after a successful start().
abbrev pub started_pool : ℕ → ℕ → ThreadPool → ThreadPool
started_pool next_id size p = record p {
  is_start = true;
  init_thread_size = size;
  now_thread_size = size;
  threads = make_threads size next_id [];
  free_thread_size = size;
}

-- start() up to its second loop.
abbrev prepared : ℕ → ℕ → ThreadPool → ThreadPool
prepared next_id size p = record p {
  is_start = true;
  init_thread_size = size;
  now_thread_size = size;
  threads = make_threads size next_id p.threads;
}

all_started :
    (next_id size : ℕ) (p : ThreadPool)
    → IsFresh p
    → (next_id ≡ 0) ⊎ (size ≡ 0)
    → start_threads size 0 (prepared next_id size p) ≡ some (started_pool next_id size p)
all_started next_id size p f c =
    let free : p.free_thread_size + size ≡ size = omega (arith, f.no_free) in
    start_threads_all size 0 (prepared next_id size p)
      (λ j a b. has_thread-make_threads size next_id j p.threads ∙ ground arith)
    ∙ ap
        (λ k. some (record p {
          is_start = true;
          init_thread_size = size;
          now_thread_size = size;
          threads = make_threads size next_id p.threads;
          free_thread_size = k;
        }))
        free
    ∙ ap
        (λ ts. some (record p {
          is_start = true;
          init_thread_size = size;
          now_thread_size = size;
          threads = make_threads size next_id ts;
          free_thread_size = size;
        }))
        f.no_threads

none_started :
    (next_id size : ℕ) (p : ThreadPool)
    → IsFresh p
    → 0 < next_id
    → 0 < size
    → start_threads size 0 (prepared next_id size p) ≡ none
unfolding start_threads
none_started next_id zero p f a b = absurd (omega arith)
none_started next_id (suc size) p f a b =
    let missing : has_thread 0 (make_threads (suc size) next_id p.threads) ≡ false =
      has_thread-make_threads (suc size) next_id 0 p.threads
      ∙ rw f.no_threads (unfold has_thread in ground arith) in
    rw missing

-- A fresh pool starts as many free threads as asked for if the counter that numbers the threads of
-- all pools is still at 0, or if it is to have no thread; otherwise start() calls a thread that is
-- not in its map.
pub start_pool-first :
    (next_id size : ℕ) (p : ThreadPool)
    → IsFresh p
    → start_pool next_id size p
      ≡ (if next_id == 0 || size == 0 then some (started_pool next_id size p) else none)
unfolding start_pool
start_pool-first next_id size p f = elim (Bool-cases (next_id == 0 || size == 0)) [
  | inl t ↦ rw t (all_started next_id size p f (ground arith))
  | inr g ↦ rw g (none_started next_id size p f (ground arith) (ground arith))
]
