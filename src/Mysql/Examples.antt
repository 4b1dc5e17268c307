-- ===== src/Mysql/Examples.antt =====
-- The theorems about MysqlDB at a small library.
use learn_git.Mysql.Arguments.{arguments_are_bound}
use learn_git.Mysql.Wrapper.{read_result, fetch_rows, query}
use learn_git.Mysql.Library.{Bind, Value}
use learn_git.Mysql.Params.{Sqlparam}
use learn_git.Mysql.Rows.{query_base-texts}
use learn_git.Mysql.Closing.{closes_statements, execute_base-Returns}
use learn_git.Mysql.Params.{makeparam, bound}
use learn_git.Mysql.Wrapper.{
  run_bound, execute_base, copy_execute_base, query_base, buffers, c_str, execute, execute_insert,
}
use learn_git.Config.Text.{pos}
use learn_git.Base.{
  ◌∷◌, List, suc, ℕ, Bytes, [], some, Bool, ◌≡◌, is_empty, true, not, false, arith, none, ap, ◌∙◌,
  refl, inl,
}
use learn_git.Mysql.Library.{Mysql, text, int, Row, has_long_cell, fits, fill}

-- The statements that are open, the number of the next one, the rows left to fetch, and what was bound
-- last.
record Session : Type 0 where
  opened : List ℕ
  next : ℕ
  left : List Row
  params : List Bind

abbrev without_first : List ℕ → List ℕ
without_first [] = []
without_first (s ∷ rest) = rest

abbrev fetched : Session → List Bytes → List Row → Session × Bool × List Bytes
fetched w bs [] = (w, true, bs)
fetched w bs (r ∷ rs) = (record w { left = rs }, not (fits r), fill bs r)

fits-has_long_cell : (r : Row) → has_long_cell r ≡ true → fits r ≡ false
fits-has_long_cell [] h = cc
fits-has_long_cell (none ∷ row) h = fits-has_long_cell row h
fits-has_long_cell (some cell ∷ row) h = ground (arith, fits-has_long_cell row, h)

opens_one : (i s : ℕ) (before : List ℕ) → some i ≡ some s → i ∷ before ≡ s ∷ before
opens_one i s before e = cc

never_fails : (i : ℕ) (before : List ℕ) → some i ≡ none → i ∷ before ≡ before
never_fails i before e = cc

fetched-opened :
    (w : Session) (bs : List Bytes) (l : List Row) → (fetched w bs l).0.opened ≡ w.opened
fetched-opened w bs [] = refl
fetched-opened w bs (r ∷ rs) = refl

fetched-reads :
    (w : Session) (bs : List Bytes) (r : Row) (rs l : List Row)
    → l ≡ r ∷ rs
    → fits r ≡ true
    → ((fetched w bs l).1 ≡ false)
      × ((fetched w bs l).2 ≡ fill bs r)
      × ((fetched w bs l).0.left ≡ rs)
fetched-reads w bs r rs l e f = rw (e, f) (refl, refl, refl)

-- A library whose only statement yields two columns.
abbrev small : Mysql
small = record {
  World = Session;
  stmt_init = λ w. (record w { opened = w.next ∷ w.opened; next = suc w.next }, some w.next);
  stmt_prepare = λ w s sql. (w, is_empty sql);
  stmt_bind_param = λ w s bs. record w { params = bs };
  stmt_execute = λ w s. (w, false);
  stmt_insert_id = λ w s. pos 1;
  num_fields = λ w s. 2;
  stmt_store_result = λ w s. w;
  stmt_bind_result = λ w s. w;
  stmt_fetch = λ w s bs. fetched w bs w.left;
  stmt_close = λ w s. record w { opened = without_first w.opened };
  open_stmts = λ w. w.opened;
  rows = λ w s. w.left;
  init_fails = λ w e. never_fails w.next w.opened e;
  init_opens = λ w s e. opens_one w.next s w.opened e;
  prepare_opens = λ w s sql. refl;
  bind_param_opens = λ w s bs. refl;
  execute_opens = λ w s. refl;
  store_opens = λ w s. refl;
  bind_result_opens = λ w s. refl;
  fetch_opens = λ w s bs. fetched-opened w bs w.left;
  closes = λ w s rest e. ap without_first e;
  bind_result_rows = λ w s. refl;
  fetch_ends = λ w s bs e. ap (λ l. (fetched w bs l).1) e;
  fetch_reads = λ w s bs r rs e f. fetched-reads w bs r rs w.left e f;
  fetch_cuts = λ w s bs r rs e o. ap (λ l. (fetched w bs l).1) e ∙ ap not (fits-has_long_cell r o);
}

-- Two rows, of which the second has a null.
abbrev session : Session
session = record {
  opened = 9 ∷ [];
  next = 1;
  left = (some (65 ∷ []) ∷ some (66 ∷ 67 ∷ []) ∷ []) ∷ (none ∷ some (68 ∷ []) ∷ []) ∷ [];
  params = [];
}

abbrev sql : Bytes
sql = 83 ∷ []

abbrev junk : ℕ → Bytes
junk i = 0 ∷ []

abbrev params : List Sqlparam
unfolding makeparam
params = makeparam (text (65 ∷ [])) ∷ makeparam (int (pos 7)) ∷ []

closes_statements_example :
    ((execute_base small session sql params).0.opened ≡ 9 ∷ [])
    × ((query_base small session sql params junk).0.opened ≡ 9 ∷ [])
closes_statements_example = closes_statements small session sql params junk

execute_base-Returns_example :
    ((execute_base small session sql params).1 ≡ true)
    × ((copy_execute_base small session sql params).1 ≡ false)
unfolding run_bound
execute_base-Returns_example = execute_base-Returns small session sql params

abbrev given_args : List Value
given_args = text (65 ∷ []) ∷ int (pos 7) ∷ []

-- The session after a statement with these arguments.
abbrev executed : Session
executed = record session { next = 2; params = bound (text (65 ∷ [])) ∷ bound (int (pos 7)) ∷ [] }

arguments_are_bound_example :
    (execute small session sql given_args ≡ (executed, true))
    × (execute_insert small session sql given_args ≡ (executed, true, some (pos 1)))
    × (query small session sql given_args junk ≡ (
      record executed { left = [] },
      ((65 ∷ []) ∷ (66 ∷ 67 ∷ []) ∷ []) ∷ ((65 ∷ []) ∷ (68 ∷ []) ∷ []) ∷ [],
    ))
unfolding read_result fetch_rows buffers c_str
arguments_are_bound_example =
    arguments_are_bound small session (record session { opened = 1 ∷ 9 ∷ []; next = 2 }) 1 sql
      given_args junk refl refl

-- The null in the second row is returned as the text above it.
query_base-texts_example :
    (query_base small session sql params junk).1
    ≡ ((65 ∷ []) ∷ (66 ∷ 67 ∷ []) ∷ []) ∷ ((65 ∷ []) ∷ (68 ∷ []) ∷ []) ∷ []
unfolding run_bound buffers c_str params
query_base-texts_example =
    query_base-texts small session (record session { opened = 1 ∷ 9 ∷ []; next = 2 }) 1 sql params
      junk refl refl refl (inl refl, (inl refl, tt))
