-- ===== src/Chat/Logins.antt =====
-- Logins, and the connections that users have through them (chat/src/server/chatservice.cpp).
use mathlib.Core.Option.{some-injective}
use learn_git.Config.Text.{ℤ, pos, negsuc, stoi}
use learn_git.Base.{
  Bytes, bytes_eq, ◌≡◌, Option, ℕ, List, true, some, map, arith, none, ◌∷◌, [], refl, ap, false,
  ◌++◌, ◌∙◌, sym,
}
use learn_git.Chat.Tables.{Sql, with_state, user_by_id, update_state}
use learn_git.Chat.Types.{
  find_conn, set_conn, int_eq, check_user, Check, admitted, refused, already_online, is_no_id,
  login_error, one_message, LoginError, Reply,
}
use learn_git.Chat.Service.{Chat, login_check, login, login_end, onemessage, sends, redis_handler}
use learn_git.Base.{◌>>=◌}
use learn_git.Chat.UserModel.{User, read_user, query_user, online, update_states, store_message}

pub int_eq_self : (i : ℤ) → int_eq i i ≡ true
int_eq_self (pos n) = ground arith
int_eq_self (negsuc n) = ground arith

pub find_conn-set_conn :
    (id : ℤ) (conn : ℕ) (cs : List (ℤ × ℕ)) → find_conn id (set_conn id conn cs) ≡ some conn
unfolding find_conn set_conn
find_conn-set_conn id conn [] = rw (int_eq_self id) refl
find_conn-set_conn id conn ((i, c) ∷ cs) = grind (arith, find_conn-set_conn id conn cs)

admitted_then_online :
    (pwd : Bytes) (u v : User)
    → check_user pwd u ≡ admitted v
    → check_user pwd (record u { state = online }) ≡ refused already_online
unfolding check_user bytes_eq
admitted_then_online pwd u v e = ground arith

-- What the check finds in the rows of the user.
abbrev checked : Bytes → Option User → Option Check
checked pwd none = none
checked pwd (some u) = some (check_user pwd u)

rows_then_online :
    (pwd : Bytes) (rows : List (List Bytes)) (v : User)
    → checked pwd (read_user rows) ≡ some (admitted v)
    → checked pwd (read_user (map (with_state online) rows)) ≡ some (refused already_online)
unfolding check_user bytes_eq
rows_then_online pwd [] v e = ground arith
rows_then_online pwd ([] ∷ rows) v e = ground arith
rows_then_online pwd ((a ∷ []) ∷ rows) v e = ground arith
rows_then_online pwd ((a ∷ b ∷ []) ∷ rows) v e = ground arith
rows_then_online pwd ((a ∷ b ∷ c ∷ []) ∷ rows) v e = ground arith
rows_then_online pwd ((a ∷ b ∷ c ∷ d ∷ row) ∷ rows) v e = go (stoi a) e
  where
    user : ℤ → Bytes → User
    user id state = record { id = id; name = b; pwd = c; state = state }

    go :
        (id : Option ℤ)
        → checked pwd (id >>= λ i. some (user i d)) ≡ some (admitted v)
        → checked pwd (id >>= λ i. some (user i online)) ≡ some (refused already_online)
    go none e = ground arith
    go (some i) e = ap some (admitted_then_online pwd (user i d) v (some-injective _ _ e))

module _ (sql : Sql) where
  login_check-checked :
      (id : ℤ) (pwd : Bytes) (db : sql.Db)
      → login_check sql id pwd db ≡ checked pwd (read_user (sql.query db (user_by_id id)))
  unfolding login_check query_user
  login_check-checked id pwd db = ground arith

  pub login_admitted :
      (conn : ℕ) (id : ℤ) (pwd : Bytes) (user : User) (s : Chat sql)
      → login_check sql id pwd s.db ≡ some (admitted user)
      → login sql conn id pwd s ≡ login_end sql conn id (admitted user) s
  unfolding login
  login_admitted conn id pwd user s e = ground arith

  login_refused :
      (conn : ℕ) (id : ℤ) (pwd : Bytes) (why : LoginError) (s : Chat sql)
      → login_check sql id pwd s.db ≡ some (refused why)
      → login sql conn id pwd s ≡ (sends sql conn (login_error why ∷ []) s, true)
  unfolding login login_end
  login_refused conn id pwd why s e = ground arith

  checked_again :
      (id : ℤ) (pwd : Bytes) (user : User) (db : sql.Db)
      → login_check sql id pwd db ≡ some (admitted user)
      → (sql.execute db (update_state id online)).1 ≡ true
      → login_check sql id pwd (sql.execute db (update_state id online)).0
        ≡ some (refused already_online)
  checked_again id pwd user db e stored =
      login_check-checked id pwd (sql.execute db (update_state id online)).0
      ∙ ap (λ rows. checked pwd (read_user rows)) (sql.update_state_ok db id online stored)
      ∙ rows_then_online pwd (sql.query db (user_by_id id)) user
          (sym (login_check-checked id pwd db) ∙ e)

  onemessage_sends :
      (conn : ℕ) (fromid toid : ℤ) (content : Bytes) (s : Chat sql)
      → let stored = (store_message sql s.db fromid toid content).1 in
        is_no_id stored.msgid ≡ false
        → find_conn toid s.user_conn ≡ some conn
        → (onemessage sql fromid toid content s).0.sent
          ≡ s.sent ++ (conn, one_message stored.msgid fromid toid content stored.time) ∷ []
  unfolding onemessage
  onemessage_sends conn fromid toid content s ok found = ground arith

  -- When a login has been admitted and the state of the user has been stored, a second login of the
  -- same user, with the same password and on any connection, is refused, and changes nothing but the answer that is sent.
  pub second_login_refused :
      (c1 c2 : ℕ) (id : ℤ) (pwd : Bytes) (user : User) (s : Chat sql)
      → login_check sql id pwd s.db ≡ some (admitted user)
      → (sql.execute s.db (update_state id online)).1 ≡ true
      → let next = (login sql c1 id pwd s).0 in
        login sql c2 id pwd next ≡ (sends sql c2 (login_error already_online ∷ []) next, true)
  unfolding login_end update_states
  second_login_refused c1 c2 id pwd user s e stored =
      let first = login_admitted c1 id pwd user s e in
      login_refused c2 id pwd already_online (login sql c1 id pwd s).0
        (ap (λ h. login_check sql id pwd h.0.db) first ∙ checked_again id pwd user s.db e stored)

  redis_handler_sends :
      (conn : ℕ) (id : ℤ) (msg : Reply) (s : Chat sql)
      → find_conn id s.user_conn ≡ some conn
      → (redis_handler sql id msg s).sent ≡ s.sent ++ (conn, msg) ∷ []
  unfolding redis_handler
  redis_handler_sends conn id msg s found = ground arith

  -- After a login that was admitted, a message to the user that is stored under an id other than -1 is
  -- sent to the connection of that login, as the last of what is sent; so is what Redis delivers
  -- on the user's channel.
  pub message_reaches_login :
      (conn : ℕ) (id fromid : ℤ) (pwd content : Bytes) (user : User) (msg : Reply) (s : Chat sql)
      → login_check sql id pwd s.db ≡ some (admitted user)
      → is_no_id (store_message sql (login sql conn id pwd s).0.db fromid id content).1.msgid
        ≡ false
      → let next = (login sql conn id pwd s).0 in
        let stored = (store_message sql next.db fromid id content).1 in
        ((onemessage sql fromid id content next).0.sent
          ≡ next.sent ++ (conn, one_message stored.msgid fromid id content stored.time) ∷ [])
        × ((redis_handler sql id msg next).sent ≡ next.sent ++ (conn, msg) ∷ [])
  unfolding login_end
  message_reaches_login conn id fromid pwd content user msg s e ok =
      let next = (login sql conn id pwd s).0 in
      let found =
        ap (λ h. find_conn id h.0.user_conn) (login_admitted conn id pwd user s e)
        ∙ find_conn-set_conn id conn s.user_conn in
      (
        onemessage_sends conn fromid id content next ok found,
        redis_handler_sends conn id msg next found,
      )
