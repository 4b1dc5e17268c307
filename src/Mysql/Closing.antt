-- ===== src/Mysql/Closing.antt =====
-- What MysqlDB returns, and that it closes each statement that it opens.
use learn_git.Base.{
  Option, List, Bytes, ℕ, ◌≡◌, Bool-cases, ◌∙◌, ap, suc, some, inl, false, ◌∷◌, sym, none, inr,
  arith, refl, zero, [], Bool, not, ◌&&◌,
}
use learn_git.Mysql.Library.{Mysql}
use learn_git.Mysql.Params.{Sqlparam}
use learn_git.Mysql.Wrapper.{
  run_bound, execute_opened, execute_base, copy_execute_opened, fetch_rows, read_result,
  query_opened, query_base, copy_execute_base,
}

module _ (api : Mysql) where
  open api use {World, open_stmts, stmt_init}

  -- A statement that may have been opened, over those that were open before.
  abbrev Opened : List ℕ → World × Option ℕ → Type 0
  Opened before (w, none) = open_stmts w ≡ before
  Opened before (w, some s) = open_stmts w ≡ s ∷ before

  init-Opened : (w : World) → Opened (open_stmts w) (stmt_init w)
  init-Opened w = go (stmt_init w) refl
    where
      go : (p : World × Option ℕ) → p ≡ stmt_init w → Opened (open_stmts w) p
      go (v, none) e = ap (λ q. open_stmts q.0) e ∙ api.init_fails w (ap (λ q. q.1) (sym e))
      go (v, some s) e = ap (λ q. open_stmts q.0) e ∙ api.init_opens w s (ap (λ q. q.1) (sym e))

  run_bound-opens :
      (w : World) (s : ℕ) (params : List Sqlparam)
      → open_stmts (run_bound api w s params).0 ≡ open_stmts w
  unfolding run_bound
  run_bound-opens w s [] = api.execute_opens w s
  run_bound-opens w s (p ∷ ps) =
      api.execute_opens (api.stmt_bind_param w s _) s ∙ api.bind_param_opens w s _

  execute_opened-closes :
      (before : List ℕ) (p : World × Option ℕ) (sql : Bytes) (params : List Sqlparam)
      → Opened before p
      → open_stmts (execute_opened api p sql params).0 ≡ before
  unfolding execute_opened
  execute_opened-closes before (w, none) sql params h = h
  execute_opened-closes before (w, some s) sql params h =
      let prepared = api.stmt_prepare w s sql in
      let kept = api.prepare_opens w s sql ∙ h in
      elim (Bool-cases prepared.1) [
        | inl t ↦ rw t (api.closes _ s before kept)
        | inr f ↦ rw f (api.closes _ s before (run_bound-opens prepared.0 s params ∙ kept))
      ]

  fetch_rows-opens :
      (w : World) (fuel s : ℕ) (cells : List Bytes)
      → open_stmts (fetch_rows api w fuel s cells).0 ≡ open_stmts w
  unfolding fetch_rows
  fetch_rows-opens w zero s cells = refl
  fetch_rows-opens w (suc fuel) s cells =
      let got = api.stmt_fetch w s cells in
      elim (Bool-cases got.1) [
        | inl t ↦ rw t (api.fetch_opens w s cells)
        | inr f ↦ rw f (fetch_rows-opens got.0 fuel s got.2 ∙ api.fetch_opens w s cells)
      ]

  read_result-opens :
      (w : World) (s : ℕ) (heap : ℕ → Bytes)
      → open_stmts (read_result api w s heap).0 ≡ open_stmts w
  unfolding read_result
  read_result-opens w s heap =
      fetch_rows-opens _ _ s _ ∙ api.bind_result_opens _ s ∙ api.store_opens w s

  query_opened-closes :
      (before : List ℕ) (p : World × Option ℕ) (sql : Bytes) (params : List Sqlparam)
      (heap : ℕ → Bytes)
      → Opened before p
      → open_stmts (query_opened api p sql params heap).0 ≡ before
  unfolding query_opened
  query_opened-closes before (w, none) sql params heap h = h
  query_opened-closes before (w, some s) sql params heap h =
      let prepared = api.stmt_prepare w s sql in
      let done = run_bound api prepared.0 s params in
      let kept = api.prepare_opens w s sql ∙ h in
      let ran = run_bound-opens prepared.0 s params ∙ kept in
      elim (Bool-cases prepared.1) [
        | inl t ↦ rw t (api.closes _ s before kept)
        | inr f ↦ elim (Bool-cases done.1) [
          | inl t ↦ rw (f, t) (api.closes _ s before ran)
          | inr g ↦ rw (f, g) (api.closes _ s before (read_result-opens done.0 s heap ∙ ran))
        ]
      ]

  -- On every path, with or without an error, the statements that are open after execute_base and
  -- after query_base are those that were open before: each that is created is closed once.
  pub closes_statements :
      (w : World) (sql : Bytes) (params : List Sqlparam) (heap : ℕ → Bytes)
      → (open_stmts (execute_base api w sql params).0 ≡ open_stmts w)
        × (open_stmts (query_base api w sql params heap).0 ≡ open_stmts w)
  unfolding execute_base query_base
  closes_statements w sql params heap = (
    execute_opened-closes (open_stmts w) (stmt_init w) sql params (init-Opened w),
    query_opened-closes (open_stmts w) (stmt_init w) sql params heap (init-Opened w),
  )

  -- What execute_base returns, by what the calls of the library answer.
  abbrev pub Returns : World × Option ℕ → Bytes → List Sqlparam → Bool → Type 0
  Returns (w, none) sql params ok = ok ≡ false
  Returns (w, some s) sql params ok =
      let prepared = api.stmt_prepare w s sql in
      ok ≡ not prepared.1 && not (run_bound api prepared.0 s params).1

  -- What the older copy returns.
  abbrev pub CopyReturns : World × Option ℕ → Bytes → List Sqlparam → Bool → Type 0
  CopyReturns (w, none) sql params ok = ok ≡ false
  CopyReturns (w, some s) sql params ok =
      let prepared = api.stmt_prepare w s sql in
      ok ≡ not prepared.1 && (run_bound api prepared.0 s params).1

  opened-Returns :
      (p : World × Option ℕ) (sql : Bytes) (params : List Sqlparam)
      → Returns p sql params (execute_opened api p sql params).1
        × CopyReturns p sql params (copy_execute_opened api p sql params).1
  unfolding execute_opened copy_execute_opened
  opened-Returns (w, none) sql params = (refl, refl)
  opened-Returns (w, some s) sql params = (ground arith, ground arith)

  -- In the chat program's copy, execute_base returns true just when the statement was created,
  -- prepared and executed without an error; in the older copy, just when it was created and prepared
  -- and its execution failed.
  pub execute_base-Returns :
      (w : World) (sql : Bytes) (params : List Sqlparam)
      → Returns (stmt_init w) sql params (execute_base api w sql params).1
        × CopyReturns (stmt_init w) sql params (copy_execute_base api w sql params).1
  unfolding execute_base copy_execute_base
  execute_base-Returns w sql params = opened-Returns (stmt_init w) sql params
