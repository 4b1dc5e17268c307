-- ===== src/Chat/Types.antt =====
-- The requests and replies of ChatService (chat/src/server/chatservice.cpp), its map of connections,
-- and the tests of login.

use learn_git.Config.Text.{ℤ, negsuc, pos}
use learn_git.Base.{
  Bytes, ℕ, if◌then◌else◌, ◌∷◌, List, Bool, Option, false, true, map, [], not, none, ◌==◌, zero,
  ◌&&◌, some, bytes_eq,
}
use learn_git.Chat.UserModel.{User, Message, FriendApply, offline}

-- The requests, by their msgtype.
pub data Request : Type 0 where
  login_request : ℤ → Bytes → Request
  ref_request : Bytes → Bytes → Request
  one_message_request : ℤ → ℤ → Bytes → Request
  ack_request : ℤ → Request
  add_friend_request agree_friend_request refuse_friend_request : ℤ → ℤ → Request
  get_addlist_request get_frilist_request : ℤ → Request
  unknown_request : Request

pub data LoginError : Type 0 where
  already_online wrong_password : LoginError

-- What is sent to a client, or published.
pub data Reply : Type 0 where
  login_ok : Bytes → Reply
  login_error : LoginError → Reply
  ref_ok : ℤ → Reply
  ref_error : Reply
  one_message : ℤ → ℤ → ℤ → Bytes → Bytes → Reply
  add_friend_error : Reply
  application friend_entry : FriendApply → Reply

-- The calls of the Redis client; their results are not looked at.
pub data RedisCall : Type 0 where
  subscribe unsubscribe : ℤ → RedisCall
  publish : ℤ → Reply → RedisCall

abbrev pub int_eq : ℤ → ℤ → Bool
int_eq (pos m) (pos n) = m == n
int_eq (negsuc m) (negsuc n) = m == n
int_eq _ _ = false

unfoldable pub find_conn : ℤ → List (ℤ × ℕ) → Option ℕ
find_conn id [] = none
find_conn id ((i, c) ∷ cs) = let rest = find_conn id cs in if int_eq i id then some c else rest

-- _userIdConn[id]=conn.
unfoldable pub set_conn : ℤ → ℕ → List (ℤ × ℕ) → List (ℤ × ℕ)
set_conn id conn [] = (id, conn) ∷ []
set_conn id conn ((i, c) ∷ cs) =
    let rest = set_conn id conn cs in if int_eq i id then (i, conn) ∷ cs else (i, c) ∷ rest

-- The search of clientColse: the first id with the connection, and the map without it.
unfoldable pub take_conn : ℕ → List (ℤ × ℕ) → Option (ℤ × List (ℤ × ℕ))
take_conn conn [] = none
take_conn conn ((i, c) ∷ cs) =
    let rest = take_conn conn cs in
    if c == conn
    then some (i, cs)
    else elim rest [ none ↦ none | some (j, others) ↦ some (j, (i, c) ∷ others) ]

-- One message to each, in order.
abbrev pub to_conn : ℕ → List Reply → List (ℕ × Reply)
to_conn conn = map (λ r. (conn, r))

-- What login finds.
pub data Check : Type 0 where
  refused : LoginError → Check
  admitted : User → Check

abbrev pub is_no_id : ℤ → Bool
is_no_id (negsuc zero) = true
is_no_id _ = false

unfoldable pub check_user : Bytes → User → Check
check_user pwd user =
    if not (is_no_id user.id) && bytes_eq user.pwd pwd
    then (if bytes_eq user.state offline then admitted user else refused already_online)
    else refused wrong_password

abbrev pub unread : ℤ → Message → Reply
unread id m = one_message m.msgid m.fromid id m.content m.time
