-- ===== src/Mysql/Library.antt =====
-- The MySQL client library, which is not part of the repository: the calls that MysqlDB makes, and
-- what its documentation says of them.
use learn_git.Base.{
  ℕ, Bool, Bytes, List, Option, false, true, ◌≡◌, ◌∷◌, some, ◌++◌, [], none, ltb, drop, length,
  ◌&&◌, ◌||◌, ◌+◌,
}
use learn_git.Config.Text.{ℤ}

-- The types of a bound buffer.
pub data FieldType : Type 0 where
  type_string type_long type_bool type_float type_double type_longlong : FieldType

-- What a buffer of a parameter holds: a text, an int, a long, a bool, or the bits of a float or of a
-- double.
pub data Value : Type 0 where
  text : Bytes → Value
  int long : ℤ → Value
  flag : Bool → Value
  float double : ℕ → Value

-- MYSQL_BIND of a parameter.
pub record Bind : Type 0 where
  pub buffer_type : FieldType
  pub buffer : Value
  pub length : Option ℕ

-- A row of a result; a cell is null or holds bytes.
abbrev pub Row : Type 0
Row = List (Option Bytes)

-- What a fetch leaves in the buffer of a column: nothing new for null, else the bytes and a zero.
abbrev pub written : Option Bytes → Bytes → Bytes
written none old = old
written (some cell) old = cell ++ 0 ∷ drop (length cell + 1) old

abbrev pub fill : List Bytes → Row → List Bytes
fill [] row = []
fill (old ∷ rest) [] = old ∷ rest
fill (old ∷ rest) (cell ∷ row) = written cell old ∷ fill rest row

-- Each cell has room in a buffer of 1024 bytes, its zero included.
abbrev pub fits : Row → Bool
fits [] = true
fits (none ∷ row) = fits row
fits (some cell ∷ row) = ltb (length cell) 1024 && fits row

-- Some cell has no room in a buffer of 1024 bytes.
abbrev pub has_long_cell : Row → Bool
has_long_cell [] = false
has_long_cell (none ∷ row) = has_long_cell row
has_long_cell (some cell ∷ row) = ltb 1024 (length cell) || has_long_cell row

-- A statement is a handle. The Booleans tell whether a call failed: mysql_stmt_prepare and
-- mysql_stmt_execute with a result other than zero, and mysql_stmt_fetch likewise, for which the end
-- of the rows and a cell that is cut count as failures. `open_stmts` are the statements that are not
-- closed, and `rows` those of a stored result that are still to be fetched.
pub record Mysql : Type 1 where
  pub World : Type 0
  pub stmt_init : World → World × Option ℕ
  pub stmt_prepare : World → ℕ → Bytes → World × Bool
  pub stmt_bind_param : World → ℕ → List Bind → World
  pub stmt_execute : World → ℕ → World × Bool
  pub stmt_insert_id : World → ℕ → ℤ
  pub num_fields : World → ℕ → ℕ
  pub stmt_store_result : World → ℕ → World
  pub stmt_bind_result : World → ℕ → World
  pub stmt_fetch : World → ℕ → List Bytes → World × Bool × List Bytes
  pub stmt_close : World → ℕ → World
  pub open_stmts : World → List ℕ
  pub rows : World → ℕ → List Row
  pub init_fails : (w : World) → (stmt_init w).1 ≡ none → open_stmts (stmt_init w).0 ≡ open_stmts w
  pub init_opens :
      (w : World) (s : ℕ) → (stmt_init w).1 ≡ some s → open_stmts (stmt_init w).0 ≡ s ∷ open_stmts w
  pub prepare_opens :
      (w : World) (s : ℕ) (sql : Bytes) → open_stmts (stmt_prepare w s sql).0 ≡ open_stmts w
  pub bind_param_opens :
      (w : World) (s : ℕ) (bs : List Bind) → open_stmts (stmt_bind_param w s bs) ≡ open_stmts w
  pub execute_opens : (w : World) (s : ℕ) → open_stmts (stmt_execute w s).0 ≡ open_stmts w
  pub store_opens : (w : World) (s : ℕ) → open_stmts (stmt_store_result w s) ≡ open_stmts w
  pub bind_result_opens : (w : World) (s : ℕ) → open_stmts (stmt_bind_result w s) ≡ open_stmts w
  pub fetch_opens :
      (w : World) (s : ℕ) (bs : List Bytes) → open_stmts (stmt_fetch w s bs).0 ≡ open_stmts w
  pub closes :
      (w : World) (s : ℕ) (rest : List ℕ)
      → open_stmts w ≡ s ∷ rest
      → open_stmts (stmt_close w s) ≡ rest
  pub bind_result_rows : (w : World) (s : ℕ) → rows (stmt_bind_result w s) s ≡ rows w s
  pub fetch_ends :
      (w : World) (s : ℕ) (bs : List Bytes) → rows w s ≡ [] → (stmt_fetch w s bs).1 ≡ true
  pub fetch_reads :
      (w : World) (s : ℕ) (bs : List Bytes) (r : Row) (rs : List Row)
      → rows w s ≡ r ∷ rs
      → fits r ≡ true
      → ((stmt_fetch w s bs).1 ≡ false)
        × ((stmt_fetch w s bs).2 ≡ fill bs r)
        × (rows (stmt_fetch w s bs).0 s ≡ rs)
  pub fetch_cuts :
      (w : World) (s : ℕ) (bs : List Bytes) (r : Row) (rs : List Row)
      → rows w s ≡ r ∷ rs
      → has_long_cell r ≡ true
      → (stmt_fetch w s bs).1 ≡ true
