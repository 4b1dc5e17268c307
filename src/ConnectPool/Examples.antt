-- ===== src/ConnectPool/Examples.antt =====
-- The theorems about the connection pool at concrete pools.
use learn_git.ConnectPool.Conservation.{IsConserved, Reach-IsConserved}
use learn_git.ConnectPool.Reaper.{IsReaped, free_time_over-IsReaped}
use learn_git.ConnectPool.Copy.{use_connections, copy_runs_out}
use learn_git.Base.{ℕ, [], ◌∷◌, true, ◌≡◌, refl, arith, none, length}
use learn_git.ConnectPool.Pool.{
  must_produce, MysqlDb, ConnectPool, new_pool, produce_connect, getconn, free_time_over,
  fill_initial, push_new,
}
use learn_git.ConnectPool.Steps.{produces, borrows, started, later, Reach, start}

abbrev made : ℕ → MysqlDb
made id = record { id = id; last = 0 }

-- One connection, which is lent, and a second one made for the next borrower.
Reach-IsConserved_example : IsConserved (record {
  pool = produce_connect true true 1 (getconn (new_pool 1 2)).0;
  lent = made 0 ∷ [];
  next_id = 2;
})
unfolding new_pool getconn fill_initial push_new must_produce
Reach-IsConserved_example =
    let first : Reach 1 2 (start 1 2) = started in
    Reach-IsConserved (later (later first (borrows (made 0) refl)) (produces refl))

-- A connection returned at second 5, one at second 100, and one that was never lent.
abbrev mixed : ConnectPool
mixed = record {
  queue =
      record { id = 0; last = 5000000000 } ∷ record { id = 1; last = 100000000000 } ∷ made 2 ∷ [];
  init_size = 1;
  cur_free_size = 3;
  cur_size = 3;
  max_size = 4;
  running = true;
}

free_time_over-IsReaped_example :
    IsReaped 101000000000 1 mixed.queue
      (free_time_over 101000000000 mixed).queue
      3
      (free_time_over 101000000000 mixed).cur_size
free_time_over-IsReaped_example = free_time_over-IsReaped 101000000000 mixed (omega arith)

copy_runs_out_example :
    ((getconn (use_connections 3 7 mixed)).1 ≡ none)
    × (length (use_connections 3 7 mixed).queue ≡ 3)
    × (must_produce (use_connections 3 7 mixed) ≡ true)
copy_runs_out_example = copy_runs_out 3 7 mixed (omega arith) (omega arith)
