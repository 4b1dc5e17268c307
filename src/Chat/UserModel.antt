-- ===== src/Chat/UserModel.antt =====
-- UserModel (chat/src/server/usermodel.cpp), with a connection that the pool has lent. `none` is an
-- exception of std::stoi.
use learn_git.Base.{ℕ, List, [], ◌∷◌, Bool, Bytes, Option, some, ◌>>=◌, get_or, if◌then◌else◌}
use learn_git.Config.Text.{ℤ, negsuc, stoi}
use learn_git.Chat.Tables.{
  Sql, insert_user, update_state, insert_message, set_read, insert_friend, accept_friend,
  upsert_friend, delete_friend, user_by_id, message_time, unread_messages, applications, friends,
}

pub record User : Type 0 where
  pub id : ℤ
  pub name : Bytes
  pub pwd : Bytes
  pub state : Bytes

abbrev pub offline : Bytes
offline = b'o' ∷ b'f' ∷ b'f' ∷ b'l' ∷ b'i' ∷ b'n' ∷ b'e' ∷ []

abbrev pub online : Bytes
online = b'o' ∷ b'n' ∷ b'l' ∷ b'i' ∷ b'n' ∷ b'e' ∷ []

-- User{}.
abbrev pub no_user : User
no_user = record { id = negsuc 0; name = []; pwd = []; state = offline }

pub record Message : Type 0 where
  pub msgid : ℤ
  pub fromid : ℤ
  pub toid : ℤ
  pub content : Bytes
  pub time : Bytes

pub record FriendApply : Type 0 where
  pub user_id : ℤ
  pub user_name : Bytes
  pub apply_time : Bytes
  pub remark : Bytes

abbrev pub col : ℕ → List Bytes → Bytes
col i row = get_or row i []

abbrev pub read_user : List (List Bytes) → Option User
read_user [] = some no_user
read_user (row ∷ rows) = do
  id ← stoi (col 0 row)
  some (record { id = id; name = col 1 row; pwd = col 2 row; state = col 3 row })

-- The loops over the rows of a query.
unfoldable pub read_messages : List (List Bytes) → Option (List Message)
read_messages [] = some []
read_messages (row ∷ rows) = do
  msgid ← stoi (col 0 row)
  fromid ← stoi (col 1 row)
  rest ← read_messages rows
  some (
      record {
        msgid = msgid;
        fromid = fromid;
        toid = negsuc 0;
        content = col 2 row;
        time = col 3 row;
      }
      ∷ rest)

unfoldable pub read_applications : List (List Bytes) → Option (List FriendApply)
read_applications [] = some []
read_applications (row ∷ rows) = do
  user_id ← stoi (col 0 row)
  rest ← read_applications rows
  some (
      record { user_id = user_id; user_name = col 1 row; apply_time = col 2 row; remark = [] }
      ∷ rest)

unfoldable pub read_friends : List (List Bytes) → Option (List FriendApply)
read_friends [] = some []
read_friends (row ∷ rows) = do
  user_id ← stoi (col 0 row)
  rest ← read_friends rows
  some (
      record {
        user_id = user_id;
        user_name = col 1 row;
        apply_time = col 3 row;
        remark = col 2 row;
      }
      ∷ rest)

module _ (sql : Sql) where
  open sql use {Db, execute, execute_insert, query}

  -- insert: the result, and the id that is put into the user.
  unfoldable pub usermodel_insert : Db → Bytes → Bytes → Db × Bool × ℤ
  usermodel_insert db name pwd = execute_insert db (insert_user name pwd)

  unfoldable pub query_user : Db → ℤ → Option User
  query_user db id = read_user (query db (user_by_id id))

  unfoldable pub update_states : Db → ℤ → Bytes → Db × Bool
  update_states db id state = execute db (update_state id state)

  abbrev time_of : List (List Bytes) → Bytes
  time_of [] = []
  time_of (row ∷ rows) = col 0 row

  -- The result of the insertion is not looked at; the message has its id and time only.
  unfoldable pub store_message : Db → ℤ → ℤ → Bytes → Db × Message
  store_message db fromid toid content =
      let done = execute_insert db (insert_message fromid toid content) in
      (
        done.0,
        record {
          msgid = done.2;
          fromid = negsuc 0;
          toid = negsuc 0;
          content = [];
          time = time_of (query done.0 (message_time done.2));
        },
      )

  unfoldable pub update_mes_status : Db → ℤ → Db × Bool
  update_mes_status db msgid = execute db (set_read msgid)

  unfoldable pub get_offline_message : Db → ℤ → Option (List Message)
  unfolding read_messages
  get_offline_message db id = read_messages (query db (unread_messages id))

  unfoldable pub apply_friend : Db → ℤ → ℤ → Db × Bool
  apply_friend db u_id f_id = execute db (insert_friend u_id f_id)

  unfoldable pub agree_friend : Db → ℤ → ℤ → Db × Bool
  agree_friend db u_id f_id =
      let done = execute db (accept_friend u_id f_id) in
      if done.1 then execute done.0 (upsert_friend f_id u_id) else done

  unfoldable pub refuse_friend : Db → ℤ → ℤ → Db × Bool
  refuse_friend db u_id f_id = execute db (delete_friend u_id f_id)

  unfoldable pub get_apply_list : Db → ℤ → Option (List FriendApply)
  unfolding read_applications
  get_apply_list db u_id = read_applications (query db (applications u_id))

  unfoldable pub get_friend_list : Db → ℤ → Option (List FriendApply)
  unfolding read_friends
  get_friend_list db u_id = read_friends (query db (friends u_id))
