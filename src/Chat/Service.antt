-- ===== src/Chat/Service.antt =====
-- ChatService (chat/src/server/chatservice.cpp): its handlers, on the fields that they read from the
-- request. A connection is its number.
use learn_git.Chat.Tables.{Sql}
use learn_git.Config.Text.{ℤ, pos}
use learn_git.Base.{
  Bytes, ℕ, if◌then◌else◌, ◌∷◌, ◌++◌, List, Bool, Option, false, true, map, [], not, none, ◌&&◌,
  some, bytes_eq,
}
use learn_git.Chat.UserModel.{
  User, Message, FriendApply, online, offline, query_user, usermodel_insert, update_states,
  store_message, update_mes_status, get_offline_message, apply_friend, agree_friend, refuse_friend,
  get_apply_list, get_friend_list,
}
use learn_git.Chat.Types.{
  Check, RedisCall, Reply, Request, ack_request, add_friend_error, add_friend_request, admitted,
  agree_friend_request, application, check_user, find_conn, friend_entry, get_addlist_request,
  get_frilist_request, is_no_id, login_error, login_ok, login_request, one_message,
  one_message_request, publish, ref_error, ref_ok, ref_request, refuse_friend_request, refused,
  set_conn, subscribe, take_conn, to_conn, unknown_request, unread, unsubscribe,
}

-- `sent` and `redis` are in the order of the calls.
pub record Chat (sql : Sql) : Type 0 where
  pub db : sql.Db
  pub user_conn : List (ℤ × ℕ)
  pub sent : List (ℕ × Reply)
  pub redis : List RedisCall

module _ (sql : Sql) where
  -- The state and whether the handler has ended without an exception of std::stoi.
  abbrev pub Handled : Type 0
  Handled = Chat sql × Bool

  abbrev pub sends : ℕ → List Reply → Chat sql → Chat sql
  sends conn rs s = record s { sent = s.sent ++ to_conn conn rs }

  abbrev pub calls : RedisCall → Chat sql → Chat sql
  calls call s = record s { redis = s.redis ++ call ∷ [] }

  -- The query of login and its tests.
  unfoldable pub login_check : ℤ → Bytes → sql.Db → Option Check
  unfolding query_user check_user
  login_check id pwd db = elim (query_user sql db id) [
    | none ↦ none
    | some u ↦ some (check_user pwd u)
  ]

  abbrev offline_replies : ℤ → Option (List Message) → List Reply
  offline_replies id none = []
  offline_replies id (some ms) = map (unread id) ms

  abbrev is_read : Option (List Message) → Bool
  is_read none = false
  is_read (some ms) = true

  -- The rest of login.
  unfoldable pub login_end : ℕ → ℤ → Check → Chat sql → Handled
  unfolding set_conn update_states get_offline_message
  login_end conn id (refused why) s = (sends conn (login_error why ∷ []) s, true)
  login_end conn id (admitted user) s =
      let db = (update_states sql s.db id online).0 in
      let waiting = get_offline_message sql db id in
      (
        sends conn (login_ok user.name ∷ offline_replies id waiting)
            (calls (subscribe id) (record s { db = db; user_conn = set_conn id conn s.user_conn })),
        is_read waiting,
      )

  unfoldable pub login : ℕ → ℤ → Bytes → Chat sql → Handled
  unfolding login_check login_end
  login conn id pwd s = elim (login_check id pwd s.db) [
    | none ↦ (s, false)
    | some check ↦ login_end conn id check s
  ]

  unfoldable pub ref : ℕ → Bytes → Bytes → Chat sql → Chat sql
  unfolding usermodel_insert
  ref conn name pwd s =
      let done = usermodel_insert sql s.db name pwd in
      sends conn ((if done.1 then ref_ok done.2 else ref_error) ∷ []) (record s { db = done.0 })

  abbrev publish_to : ℤ → Reply → Option User → Chat sql → Handled
  publish_to toid msg none s = (s, false)
  publish_to toid msg (some user) s = (
    if not (is_no_id user.id) && bytes_eq user.state online then calls (publish toid msg) s else s,
    true,
  )

  unfoldable pub onemessage : ℤ → ℤ → Bytes → Chat sql → Handled
  unfolding store_message find_conn query_user
  onemessage fromid toid content s =
      let done = store_message sql s.db fromid toid content in
      let msg = one_message done.1.msgid fromid toid content done.1.time in
      let stored = record s { db = done.0 } in
      if is_no_id done.1.msgid then (stored, true) else elim (find_conn toid s.user_conn) [
        | some conn ↦ (sends conn (msg ∷ []) stored, true)
        | none ↦ publish_to toid msg (query_user sql done.0 toid) stored
      ]

  -- The id stays 0 where no user has the connection.
  unfoldable pub client_colse : ℕ → Chat sql → Chat sql
  unfolding take_conn update_states
  client_colse conn s = elim (take_conn conn s.user_conn) [
    | none ↦ record s { db = (update_states sql s.db (pos 0) offline).0 }
    | some (id, others) ↦
        calls (unsubscribe id)
          (record s { db = (update_states sql s.db id offline).0; user_conn = others })
  ]

  unfoldable pub acknowledge : ℤ → Chat sql → Chat sql
  unfolding update_mes_status
  acknowledge msgid s = record s { db = (update_mes_status sql s.db msgid).0 }

  unfoldable pub addfriend : ℕ → ℤ → ℤ → Chat sql → Chat sql
  unfolding apply_friend
  addfriend conn u_id f_id s =
      let done = apply_friend sql s.db u_id f_id in
      let next = record s { db = done.0 } in
      if done.1 then next else sends conn (add_friend_error ∷ []) next

  unfoldable pub agreefiend : ℤ → ℤ → Chat sql → Chat sql
  unfolding agree_friend
  agreefiend u_id f_id s = record s { db = (agree_friend sql s.db u_id f_id).0 }

  unfoldable pub refusefriend : ℤ → ℤ → Chat sql → Chat sql
  unfolding refuse_friend
  refusefriend u_id f_id s = record s { db = (refuse_friend sql s.db u_id f_id).0 }

  abbrev send_list : ℕ → (FriendApply → Reply) → Option (List FriendApply) → Chat sql → Handled
  send_list conn reply none s = (s, false)
  send_list conn reply (some fs) s = (sends conn (map reply fs) s, true)

  unfoldable pub getaddlist : ℕ → ℤ → Chat sql → Handled
  unfolding get_apply_list
  getaddlist conn u_id s = send_list conn application (get_apply_list sql s.db u_id) s

  unfoldable pub getfriendlist : ℕ → ℤ → Chat sql → Handled
  unfolding get_friend_list
  getfriendlist conn u_id s = send_list conn friend_entry (get_friend_list sql s.db u_id) s

  -- What Redis delivers on a channel.
  unfoldable pub redis_handler : ℤ → Reply → Chat sql → Chat sql
  unfolding find_conn
  redis_handler channel msg s = elim (find_conn channel s.user_conn) [
    | none ↦ s
    | some conn ↦ sends conn (msg ∷ []) s
  ]

  -- The handler that getHandler finds for a message type; for another it writes to the log.
  unfoldable pub handle : ℕ → Request → Chat sql → Handled
  unfolding login ref onemessage acknowledge addfriend agreefiend refusefriend getaddlist
      getfriendlist
  handle conn (login_request id pwd) s = login conn id pwd s
  handle conn (ref_request name pwd) s = (ref conn name pwd s, true)
  handle conn (one_message_request fromid toid content) s = onemessage fromid toid content s
  handle conn (ack_request msgid) s = (acknowledge msgid s, true)
  handle conn (add_friend_request u_id f_id) s = (addfriend conn u_id f_id s, true)
  handle conn (agree_friend_request u_id f_id) s = (agreefiend u_id f_id s, true)
  handle conn (refuse_friend_request u_id f_id) s = (refusefriend u_id f_id s, true)
  handle conn (get_addlist_request u_id) s = getaddlist conn u_id s
  handle conn (get_frilist_request u_id) s = getfriendlist conn u_id s
  handle conn unknown_request s = (s, true)
