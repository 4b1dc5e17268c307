-- ===== src/Chat/Tables.antt =====
-- The MySQL database of the chat server, as UserModel uses it (chat/src/server/usermodel.cpp).
use learn_git.Base.{List, ◌∷◌, Bool, true, Bytes, ◌≡◌, map}
use learn_git.Config.Text.{ℤ}

-- The texts of the statements that are executed, with their arguments.
pub data Statement : Type 0 where
  insert_user : Bytes → Bytes → Statement
  update_state : ℤ → Bytes → Statement
  insert_message : ℤ → ℤ → Bytes → Statement
  set_read : ℤ → Statement
  insert_friend accept_friend upsert_friend delete_friend : ℤ → ℤ → Statement

-- The texts of the queries.
pub data Query : Type 0 where
  user_by_id message_time unread_messages applications friends : ℤ → Query

-- A row of the table of users with another state: id, username, password, state.
abbrev pub with_state : Bytes → List Bytes → List Bytes
with_state state (id ∷ name ∷ pwd ∷ old ∷ rest) = id ∷ name ∷ pwd ∷ state ∷ rest
with_state state row = row

-- The calls of MysqlDB. `execute_insert` also yields what mysql_stmt_insert_id returns.
pub record Sql : Type 1 where
  pub Db : Type 0
  pub execute : Db → Statement → Db × Bool
  pub execute_insert : Db → Statement → Db × Bool × ℤ
  pub query : Db → Query → List (List Bytes)
  pub update_state_ok :
      (db : Db) (id : ℤ) (state : Bytes)
      → (execute db (update_state id state)).1 ≡ true
      → query (execute db (update_state id state)).0 (user_by_id id)
        ≡ map (with_state state) (query db (user_by_id id))
