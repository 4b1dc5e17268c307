-- ===== src/Mysql/Rows.antt =====
-- What query_base reads (MysqlDB.cpp).
use learn_git.Mysql.Params.{Sqlparam}
use learn_git.Base.{
  Bytes, List, ℕ, ◌∷◌, ◌≡◌, ◌++◌, map, if◌then◌else◌, true, [], length, some, none, ◌<◌, drop, ◌⊎◌,
  refl, arith, false, ◌+◌, suc, inr, inl, ap, ◌∙◌, zero,
}
use learn_git.Mysql.Library.{Mysql, Row, fill, fits, has_long_cell}
use learn_git.Mysql.Wrapper.{
  c_str, fetch_rows, buffers, read_result, query_base, query_opened, run_bound,
}

-- The texts of the columns after a row: a null cell keeps the text that was there before.
abbrev pub next_texts : List Bytes → Row → List Bytes
next_texts [] row = []
next_texts (old ∷ rest) [] = old ∷ rest
next_texts (old ∷ rest) (none ∷ row) = old ∷ next_texts rest row
next_texts (old ∷ rest) (some cell ∷ row) = c_str cell ∷ next_texts rest row

-- The rows of texts, up to the first row with a cell that has no room.
abbrev pub texts : List Bytes → List Row → List (List Bytes)
texts old [] = []
texts old (r ∷ rs) =
    let now = next_texts old r in let rest = texts now rs in if fits r then now ∷ rest else []

-- Each row has room for its cells, or has a cell of more than 1024 bytes.
abbrev pub AreSized : List Row → Type 0
AreSized [] = Unit {0}
AreSized (r ∷ rs) = ((fits r ≡ true) ⊎ ((fits r ≡ false) × (has_long_cell r ≡ true))) × AreSized rs

c_str-append : (cell rest : Bytes) → c_str (cell ++ 0 ∷ rest) ≡ c_str cell
unfolding c_str
c_str-append [] rest = refl
c_str-append (c ∷ cs) rest = rw (c_str-append cs rest) refl

fill-texts :
    (cells : List Bytes) (r : Row) → map c_str (fill cells r) ≡ next_texts (map c_str cells) r
fill-texts [] r = refl
fill-texts (old ∷ rest) [] = refl
fill-texts (old ∷ rest) (none ∷ row) = rw (fill-texts rest row) refl
fill-texts (old ∷ rest) (some cell ∷ row) =
    rw (c_str-append cell (drop (length cell + 1) old), fill-texts rest row) refl

module _ (api : Mysql) where
  open api use {World, rows}

  fetch_rows-texts :
      (w : World) (fuel s : ℕ) (cells : List Bytes) (rs : List Row)
      → rows w s ≡ rs
      → length rs < fuel
      → AreSized rs
      → (fetch_rows api w fuel s cells).1 ≡ texts (map c_str cells) rs
  unfolding fetch_rows
  fetch_rows-texts w zero s cells rs e h k = absurd (omega arith)
  fetch_rows-texts w (suc fuel) s cells [] e h k = rw (api.fetch_ends w s cells e) refl
  fetch_rows-texts w (suc fuel) s cells (r ∷ rs) e h (inr cut, k) =
      rw (api.fetch_cuts w s cells r rs e cut.1, cut.0) refl
  fetch_rows-texts w (suc fuel) s cells (r ∷ rs) e h (inl fit, k) =
      let got = api.stmt_fetch w s cells in
      let read = api.fetch_reads w s cells r rs e fit in
      let rest = fetch_rows-texts got.0 fuel s got.2 rs read.2 (omega arith) k in
      let now : map c_str got.2 ≡ next_texts (map c_str cells) r =
        ap (map c_str) read.1 ∙ fill-texts cells r in
      rw (read.0, fit) (ap (λ l. map c_str got.2 ∷ l) rest ∙ ap (λ n. n ∷ texts n rs) now)

  -- A statement is created, prepared and executed without an error, and each row of its result has
  -- room for its cells in buffers of 1024 bytes, or has a cell that is longer. Then query_base returns
  -- the rows up to the first that has no room, each cell as its bytes up to a zero; a null cell is
  -- returned as the text of the cell above it, and in the first row as what the buffer held before.
  pub query_base-texts :
      (w v : World) (s : ℕ) (sql : Bytes) (params : List Sqlparam) (heap : ℕ → Bytes)
      → api.stmt_init w ≡ (v, some s)
      → (api.stmt_prepare v s sql).1 ≡ false
      → let done = run_bound api (api.stmt_prepare v s sql).0 s params in
        done.1 ≡ false
        → let stored = api.stmt_store_result done.0 s in
          AreSized (rows stored s)
          → (query_base api w sql params heap).1
            ≡ texts (map c_str (buffers heap 0 (api.num_fields done.0 s))) (rows stored s)
  unfolding query_base query_opened read_result
  query_base-texts w v s sql params heap e p q k =
      let done = run_bound api (api.stmt_prepare v s sql).0 s params in
      let stored = api.stmt_store_result done.0 s in
      let bound = api.stmt_bind_result stored s in
      let same = api.bind_result_rows stored s in
      rw (e, p, q)
        (fetch_rows-texts bound (suc (length (rows bound s))) s
          (buffers heap 0 (api.num_fields done.0 s)) (rows stored s) same (rw same (omega arith)) k)
