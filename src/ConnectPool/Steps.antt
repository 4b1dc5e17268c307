-- ===== src/ConnectPool/Steps.antt =====
-- The threads of a pool, interleaved in any order: the producer, the reaper, and those that borrow
-- and return connections.
use learn_git.Base.{ℕ, ◌+◌, List, [], ◌∷◌, ◌++◌, true, ◌≡◌, some}
use learn_git.ConnectPool.Pool.{
  MysqlDb, ConnectPool, new_pool, must_produce, produce_connect, getconn, give_back, free_time_over,
  shut,
}

-- `lent` are the connections that borrowers hold, and `next_id` numbers the next connection.
pub record System : Type 0 where
  pub pool : ConnectPool
  pub lent : List MysqlDb
  pub next_id : ℕ

pub data Step (s : System) : System → Type 0 where
  produces :
      must_produce s.pool ≡ true
      → Step s (record {
        pool = produce_connect true true s.next_id s.pool;
        lent = s.lent;
        next_id = s.next_id + 1;
      })
  borrows :
      (d : MysqlDb)
      → (getconn s.pool).1 ≡ some d
      → Step s (record { pool = (getconn s.pool).0; lent = d ∷ s.lent; next_id = s.next_id })
  returns :
      (now : ℕ) (before after : List MysqlDb) (d : MysqlDb)
      → s.lent ≡ before ++ d ∷ after
      → Step s
          (record { pool = give_back now d s.pool; lent = before ++ after; next_id = s.next_id })
  reaps :
      (now : ℕ)
      → Step s (record { pool = free_time_over now s.pool; lent = s.lent; next_id = s.next_id })
  shuts : Step s (record { pool = shut s.pool; lent = s.lent; next_id = s.next_id })

abbrev pub start : ℕ → ℕ → System
start init_size max_size = record {
  pool = new_pool init_size max_size;
  lent = [];
  next_id = init_size;
}

pub data Reach (init_size max_size : ℕ) : System → Type 0 where
  started : Reach init_size max_size (start init_size max_size)
  later : {s t : System} → Reach init_size max_size s → Step s t → Reach init_size max_size t
