-- ===== src/Mysql/Arguments.antt =====
-- What becomes of the arguments of execute, execute_insert and query (MysqlDB.h, MysqlDB.cpp).
use learn_git.Base.{
  ℕ, List, Bytes, ◌≡◌, map, ◌∷◌, some, ap, [], false, refl, not, if◌then◌else◌, none,
}
use learn_git.Mysql.Library.{Mysql, Value}
use learn_git.Mysql.Params.{bound, makeparam, bind_each-makeparam}
use learn_git.Mysql.Wrapper.{
  run_bound, execute_opened, execute_base, query_opened, query_base, read_result, execute,
  execute_insert, query,
}

module _ (api : Mysql) where
  open api use {World, stmt_init, stmt_prepare, stmt_bind_param, stmt_execute, stmt_close}

  -- A statement that is given arguments: each is bound in its place, with its value and the MySQL type of
  -- its C++ type, and a text with its length. Without arguments nothing is bound.
  abbrev pub given : World → ℕ → List Value → World
  given w s [] = w
  given w s (v ∷ vs) = stmt_bind_param w s (bound v ∷ map bound vs)

  run_bound-given :
      (w : World) (s : ℕ) (args : List Value)
      → run_bound api w s (map makeparam args) ≡ stmt_execute (given w s args) s
  unfolding run_bound
  run_bound-given w s [] = refl
  run_bound-given w s (v ∷ vs) =
      ap (λ bs. stmt_execute (stmt_bind_param w s bs) s) (bind_each-makeparam (v ∷ vs))

  -- When a statement is created and prepared without an error, execute, execute_insert and query bind
  -- their arguments to it, in their order, each with its value and the MySQL type of its C++ type, and a
  -- text with its length; they execute that statement once, and what they return is what its execution
  -- yields. They close it then.
  pub arguments_are_bound :
      (w v : World) (s : ℕ) (sql : Bytes) (args : List Value) (heap : ℕ → Bytes)
      → stmt_init w ≡ (v, some s)
      → (stmt_prepare v s sql).1 ≡ false
      → let done = stmt_execute (given (stmt_prepare v s sql).0 s args) s in
        let read = read_result api done.0 s heap in
        (execute api w sql args ≡ (stmt_close done.0 s, not done.1))
        × (execute_insert api w sql args ≡ (
          stmt_close done.0 s,
          not done.1,
          if done.1 then none else some (api.stmt_insert_id done.0 s),
        ))
        × (query api w sql args heap
            ≡ (if done.1 then (stmt_close done.0 s, []) else (stmt_close read.0 s, read.1)))
  unfolding execute execute_insert query execute_base query_base execute_opened query_opened
  arguments_are_bound w v s sql args heap e p =
      rw (e, p, run_bound-given (stmt_prepare v s sql).0 s args) (refl, refl, refl)
