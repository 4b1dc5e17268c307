-- ===== src/Chat/Examples.antt =====
-- The theorems about the chat service at a database of two users in memory.

use learn_git.Chat.Logins.{second_login_refused, message_reaches_login}
use learn_git.Chat.UserModel.{store_message, offline}
use learn_git.Chat.UserModel.{User, offline}
use learn_git.RaftService.Keys.{read_digits}
use learn_git.Chat.Tables.{Sql, Statement, Query, update_state, user_by_id, with_state}
use learn_git.Chat.Types.{int_eq, login_error, one_message, already_online, admitted, ref_error}
use learn_git.Chat.Service.{login, Chat, login_check, sends, onemessage, redis_handler}
use learn_git.Base.{
  List, [], ◌∷◌, true, Bytes, map, ◌≡◌, refl, arith, if◌then◌else◌, ℕ, bytes_eq, ◌++◌, some,
}
use learn_git.Config.Text.{ℤ, pos, stoi}

abbrev Users : Type 0
Users = List (ℤ × List Bytes)

store : ℤ → Bytes → Users → Users
store id state [] = []
store id state ((i, row) ∷ us) =
    (i, if int_eq i id then with_state state row else row) ∷ store id state us

rows_of : ℤ → Users → List (List Bytes)
rows_of id [] = []
rows_of id ((i, row) ∷ us) = let rest = rows_of id us in if int_eq i id then row ∷ rest else rest

rows_of-store :
    (id : ℤ) (state : Bytes) (us : Users)
    → rows_of id (store id state us) ≡ map (with_state state) (rows_of id us)
unfolding rows_of store
rows_of-store id state [] = refl
rows_of-store id state ((i, row) ∷ us) = grind (arith, rows_of-store id state us)

run : Users → Statement → Users
run us (update_state id state) = store id state us
run us _ = us

ask : Users → Query → List (List Bytes)
ask us (user_by_id id) = rows_of id us
ask us _ = []

abbrev memory_sql : Sql
memory_sql = record {
  Db = Users;
  execute = λ us statement. (run us statement, true);
  execute_insert = λ us statement. (run us statement, true, pos 7);
  query = ask;
  update_state_ok = λ us id state _. unfold run ask in rows_of-store id state us;
}

abbrev user_row : ℕ → ℕ → List Bytes
user_row id name = (id ∷ []) ∷ (name ∷ []) ∷ (b'p' ∷ []) ∷ offline ∷ []

abbrev user_of : ℤ → ℕ → User
user_of id name = record { id = id; name = name ∷ []; pwd = b'p' ∷ []; state = offline }

abbrev quiet : Chat memory_sql
quiet = record {
  db = (pos 1, user_row b'1' b'a') ∷ (pos 2, user_row b'2' b'b') ∷ [];
  user_conn = [];
  sent = [];
  redis = [];
}

first_login :
    login_check memory_sql (pos 1) (b'p' ∷ []) quiet.db ≡ some (admitted (user_of (pos 1) b'a'))
unfolding login_check rows_of ask bytes_eq stoi read_digits
first_login = refl

second_login :
    login_check memory_sql (pos 2) (b'p' ∷ []) (login memory_sql 9 (pos 1) (b'p' ∷ []) quiet).0.db
    ≡ some (admitted (user_of (pos 2) b'b'))
unfolding login_check login rows_of ask run store bytes_eq stoi read_digits
second_login = refl

second_login_refused_example :
    let next = (login memory_sql 8 (pos 1) (b'p' ∷ []) quiet).0 in
    login memory_sql 9 (pos 1) (b'p' ∷ []) next
    ≡ (sends memory_sql 9 (login_error already_online ∷ []) next, true)
second_login_refused_example =
    second_login_refused memory_sql 8 9 (pos 1) (b'p' ∷ []) (user_of (pos 1) b'a') quiet first_login
      refl

message_reaches_login_example :
    let next = (login memory_sql 8 (pos 1) (b'p' ∷ []) quiet).0 in
    ((onemessage memory_sql (pos 2) (pos 1) (b'h' ∷ []) next).0.sent
      ≡ next.sent ++ (8, one_message (pos 7) (pos 2) (pos 1) (b'h' ∷ []) []) ∷ [])
    × ((redis_handler memory_sql (pos 1) ref_error next).sent ≡ next.sent ++ (8, ref_error) ∷ [])
unfolding store_message ask
message_reaches_login_example =
    message_reaches_login memory_sql 8 (pos 1) (pos 2) (b'p' ∷ []) (b'h' ∷ [])
      (user_of (pos 1) b'a') ref_error quiet first_login refl
