-- ===== src/ConnectPool/Pool.antt =====
-- ConnectPool (chat/include/ConnectPool.h, chat/src/server/ConnectPool.cpp), as between two holders
-- of its lock. A time is a reading of the clock in nanoseconds; the epoch is 0.
use learn_git.Config.Text.{ℤ, pos, negsuc}
use learn_git.Base.{
  ℕ, zero, suc, ◌+◌, ◌-◌, ◌/◌, List, [], ◌∷◌, ◌++◌, Bool, true, false, ◌&&◌, ltb, ◌==◌,
  if◌then◌else◌, Option, none, some, ◌%◌,
}

-- A connection, numbered in the order of creation; `last` is what setlasttime stored.
pub record MysqlDb : Type 0 where
  pub id : ℕ
  pub last : ℕ

-- The conversion of a count of seconds to an int of 32 bits.
abbrev pub to_int : ℕ → ℤ
to_int n =
    if ltb (n % 4294967296) 2147483648
    then pos (n % 4294967296)
    else negsuc (4294967295 - n % 4294967296)

-- resultfreetime: whole seconds since the last return, as an int. A clock that was put back gives zero
-- here and a negative number there, which the reaper treats alike.
unfoldable pub free_time : ℕ → MysqlDb → ℤ
free_time now d = to_int ((now - d.last) / 1000000000)

-- The test of the reaper, `resultfreetime()>10`.
abbrev pub over_ten : ℤ → Bool
over_ten (pos n) = ltb 10 n
over_ten (negsuc n) = false

pub record ConnectPool : Type 0 where
  pub queue : List MysqlDb
  pub init_size : ℕ
  pub cur_free_size : ℕ
  pub cur_size : ℕ
  pub max_size : ℕ
  pub running : Bool

-- A connection that has never been returned has the time point `{}`.
unfoldable pub push_new : ℕ → ConnectPool → ConnectPool
push_new id p = record p {
  queue = p.queue ++ record { id = id; last = 0 } ∷ [];
  cur_free_size = p.cur_free_size + 1;
  cur_size = p.cur_size + 1;
}

-- The loop of the constructor, if every connection is made.
unfoldable pub fill_initial : ℕ → ℕ → ConnectPool → ConnectPool
unfolding push_new
fill_initial zero id p = p
fill_initial (suc rounds) id p = fill_initial rounds (id + 1) (push_new id p)

unfoldable pub new_pool : ℕ → ℕ → ConnectPool
unfolding fill_initial
new_pool init_size max_size =
    record (fill_initial init_size 0 (record {
      queue = [];
      init_size = init_size;
      cur_free_size = 0;
      cur_size = 0;
      max_size = max_size;
      running = false;
    })) { running = true }

-- What the producer waits for, but for the end of the pool.
unfoldable pub must_produce : ConnectPool → Bool
must_produce p = (p.cur_free_size == 0) && ltb p.cur_size p.max_size

-- One round of produceConnect; a connection that cannot be made is tried again in the next. `runs` is
-- what the round has read of `_run`, which the destructor may set without the lock right after.
unfoldable pub produce_connect : Bool → Bool → ℕ → ConnectPool → ConnectPool
unfolding must_produce push_new
produce_connect runs connects id p =
    if runs && (must_produce p && connects) then push_new id p else p

-- getconn when it has the lock and a free connection is counted, or when a second has passed. The
-- front of an empty queue is undefined: it is `none` too, and the counts exclude it.
unfoldable pub getconn : ConnectPool → ConnectPool × Option MysqlDb
getconn p =
    if ltb 0 p.cur_free_size
    then elim p.queue [
      | [] ↦ (p, none)
      | d ∷ ds ↦ (record p { queue = ds; cur_free_size = p.cur_free_size - 1 }, some d)
    ]
    else (p, none)

-- The deleter of the pointer that getconn returns.
unfoldable pub give_back : ℕ → MysqlDb → ConnectPool → ConnectPool
give_back now d p = record p {
  queue = p.queue ++ record d { last = now } ∷ [];
  cur_free_size = p.cur_free_size + 1;
}

-- The inner loop of freetimeover: the queue, the free count and the size after it.
unfoldable pub reap_loop : ℕ → ℕ → List MysqlDb → ℕ → ℕ → List MysqlDb × ℕ × ℕ
unfolding free_time
reap_loop now init_size [] free size = ([], free, size)
reap_loop now init_size (d ∷ ds) free size =
    let rest = reap_loop now init_size ds (free - 1) (size - 1) in
    if ltb init_size size && over_ten (free_time now d) then rest else (d ∷ ds, free, size)

-- One round of freetimeover after its sleep. `_run` is tested before the sleep, so a round may still
-- take place in a pool that is being destroyed.
unfoldable pub free_time_over : ℕ → ConnectPool → ConnectPool
unfolding reap_loop
free_time_over now p =
    let done = reap_loop now p.init_size p.queue p.cur_free_size p.cur_size in
    record p { queue = done.0; cur_free_size = done.1; cur_size = done.2 }

-- The destructor.
unfoldable pub shut : ConnectPool → ConnectPool
shut p = record p { running = false }
