-- ===== src/Mysql/Wrapper.antt =====
-- MysqlDB::execute_base of both copies of the class, and query_base.
use learn_git.Base.{
  Bytes, ℕ, Option, List, ◌∷◌, Bool, map, if◌then◌else◌, suc, [], is_empty, length, ◌==◌, false,
  some, zero, none, not,
}
use learn_git.Mysql.Library.{Mysql, Value}
use learn_git.Mysql.Params.{Sqlparam, makeparam, bind_each}
use learn_git.Config.Text.{ℤ}

-- The text that a char pointer stands for.
unfoldable pub c_str : Bytes → Bytes
c_str [] = []
c_str (c ∷ cs) = let rest = c_str cs in if c == 0 then [] else c ∷ rest

-- `new char[1024]` for each column; what it holds at first is not known.
unfoldable pub buffers : (ℕ → Bytes) → ℕ → ℕ → List Bytes
buffers heap i zero = []
buffers heap i (suc n) = heap i ∷ buffers heap (suc i) n

module _ (api : Mysql) where
  open api use {
    World, stmt_init, stmt_prepare, stmt_bind_param, stmt_execute, stmt_fetch, stmt_close,
  }

  -- `if(n>0) mysql_stmt_bind_param`, and the execution. True is a failure.
  unfoldable pub run_bound : World → ℕ → List Sqlparam → World × Bool
  run_bound w s params =
      stmt_execute (if is_empty params then w else stmt_bind_param w s (bind_each params)) s

  -- What is returned, and what `*i` is set to.
  unfoldable pub execute_opened : World × Option ℕ → Bytes → List Sqlparam → World × Bool × Option ℤ
  execute_opened (w, none) sql params = (w, false, none)
  execute_opened (w, some s) sql params =
      let prepared = stmt_prepare w s sql in
      let done = run_bound prepared.0 s params in
      if prepared.1 then (stmt_close prepared.0 s, false, none) else (
        stmt_close done.0 s,
        not done.1,
        if done.1 then none else some (api.stmt_insert_id done.0 s),
      )

  unfoldable pub execute_base : World → Bytes → List Sqlparam → World × Bool × Option ℤ
  execute_base w sql params = execute_opened (stmt_init w) sql params

  -- The older copy returns the result of mysql_stmt_execute as it is.
  unfoldable pub copy_execute_opened : World × Option ℕ → Bytes → List Sqlparam → World × Bool
  copy_execute_opened (w, none) sql params = (w, false)
  copy_execute_opened (w, some s) sql params =
      let prepared = stmt_prepare w s sql in
      let done = run_bound prepared.0 s params in
      if prepared.1 then (stmt_close prepared.0 s, false) else (stmt_close done.0 s, done.1)

  unfoldable pub copy_execute_base : World → Bytes → List Sqlparam → World × Bool
  copy_execute_base w sql params = copy_execute_opened (stmt_init w) sql params

  -- The loop of query_base; `fuel` bounds its rounds.
  unfoldable pub fetch_rows : World → ℕ → ℕ → List Bytes → World × List (List Bytes)
  fetch_rows w zero s cells = (w, [])
  fetch_rows w (suc fuel) s cells =
      let got = stmt_fetch w s cells in
      let rest = fetch_rows got.0 fuel s got.2 in
      if got.1 then (got.0, []) else (rest.0, map c_str got.2 ∷ rest.1)

  -- The rows of a statement that was executed.
  unfoldable pub read_result : World → ℕ → (ℕ → Bytes) → World × List (List Bytes)
  read_result w s heap =
      let cols = api.num_fields w s in
      let stored = api.stmt_bind_result (api.stmt_store_result w s) s in
      fetch_rows stored (suc (length (api.rows stored s))) s (buffers heap 0 cols)

  unfoldable pub query_opened :
      World × Option ℕ → Bytes → List Sqlparam → (ℕ → Bytes) → World × List (List Bytes)
  query_opened (w, none) sql params heap = (w, [])
  query_opened (w, some s) sql params heap =
      let prepared = stmt_prepare w s sql in
      let done = run_bound prepared.0 s params in
      let read = read_result done.0 s heap in
      if prepared.1
      then (stmt_close prepared.0 s, [])
      else if done.1
      then (stmt_close done.0 s, [])
      else (stmt_close read.0 s, read.1)

  unfoldable pub query_base :
      World → Bytes → List Sqlparam → (ℕ → Bytes) → World × List (List Bytes)
  query_base w sql params heap = query_opened (stmt_init w) sql params heap

  -- The templates of the header.
  unfoldable pub execute_insert : World → Bytes → List Value → World × Bool × Option ℤ
  execute_insert w sql args = execute_base w sql (map makeparam args)

  unfoldable pub execute : World → Bytes → List Value → World × Bool
  execute w sql args = let done = execute_base w sql (map makeparam args) in (done.0, done.1)

  unfoldable pub query : World → Bytes → List Value → (ℕ → Bytes) → World × List (List Bytes)
  query w sql args heap = query_base w sql (map makeparam args) heap
