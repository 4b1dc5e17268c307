-- ===== src/Chat/Closing.antt =====
-- The end of a connection (ChatService::clientColse, chat/src/server/chatservice.cpp).
use learn_git.Base.{
  ℕ, List, [], ◌∷◌, Option, none, some, ◌≡◌, true, false, arith, ◌⊎◌, inl, subst, sym, Bytes, ap,
  ◌∙◌,
}
use learn_git.Config.Text.{ℤ, pos, negsuc}
use learn_git.Chat.Tables.{Sql}
use learn_git.Chat.Logins.{login_admitted, find_conn-set_conn, int_eq_self}
use learn_git.Chat.UserModel.{User}
use learn_git.Chat.Types.{admitted, set_conn, find_conn, take_conn, int_eq}
use learn_git.Chat.Service.{login, login_check, login_end, Chat, client_colse}

int_eq-both : (i a b : ℤ) → int_eq i a ≡ true → int_eq i b ≡ true → int_eq a b ≡ true
int_eq-both (pos i) (pos a) (pos b) e f = ground arith
int_eq-both (pos i) (pos a) (negsuc b) e f = ground arith
int_eq-both (pos i) (negsuc a) b e f = ground arith
int_eq-both (negsuc i) (pos a) b e f = ground arith
int_eq-both (negsuc i) (negsuc a) (pos b) e f = ground arith
int_eq-both (negsuc i) (negsuc a) (negsuc b) e f = ground arith

find_conn-set_other :
    (a b : ℤ) (conn : ℕ) (cs : List (ℤ × ℕ))
    → int_eq a b ≡ false
    → find_conn a (set_conn b conn cs) ≡ find_conn a cs
unfolding find_conn set_conn
find_conn-set_other a b conn [] d = grind (arith, int_eq-both b a b, int_eq_self b)
find_conn-set_other a b conn ((i, c) ∷ cs) d =
    grind (arith, find_conn-set_other a b conn cs d, int_eq-both i a b)

-- The map after the search.
abbrev remaining : Option (ℤ × List (ℤ × ℕ)) → List (ℤ × ℕ) → List (ℤ × ℕ)
remaining none cs = cs
remaining (some (i, others)) cs = others

one_stays :
    (conn : ℕ) (a b : ℤ) (cs : List (ℤ × ℕ))
    → int_eq a b ≡ false
    → find_conn a cs ≡ some conn
    → find_conn b cs ≡ some conn
    → (find_conn a (remaining (take_conn conn cs) cs) ≡ some conn)
      ⊎ (find_conn b (remaining (take_conn conn cs) cs) ≡ some conn)
unfolding find_conn take_conn
one_stays conn a b [] d e f = inl e
one_stays conn a b ((i, c) ∷ cs) d e f = grind (arith, one_stays conn a b cs d, int_eq-both i a b)

module _ (sql : Sql) where
  client_colse-remaining :
      (conn : ℕ) (s : Chat sql)
      → (client_colse sql conn s).user_conn ≡ remaining (take_conn conn s.user_conn) s.user_conn
  unfolding client_colse
  client_colse-remaining conn s = ground arith

  -- When two users have logged in one after the other on one connection, its end takes one of them out
  -- of the map only: the other still stands there with the connection that has ended.
  pub closed_connection_stays :
      (conn : ℕ) (a b : ℤ) (pwd_a pwd_b : Bytes) (user_a user_b : User) (s : Chat sql)
      → int_eq a b ≡ false
      → login_check sql a pwd_a s.db ≡ some (admitted user_a)
      → login_check sql b pwd_b (login sql conn a pwd_a s).0.db ≡ some (admitted user_b)
      → let closed =
          client_colse sql conn (login sql conn b pwd_b (login sql conn a pwd_a s).0).0 in
        (find_conn a closed.user_conn ≡ some conn) ⊎ (find_conn b closed.user_conn ≡ some conn)
  unfolding login_end
  closed_connection_stays conn a b pwd_a pwd_b user_a user_b s d e f =
      let next = (login sql conn a pwd_a s).0 in
      let both = (login sql conn b pwd_b next).0 in
      let first = login_admitted sql conn a pwd_a user_a s e in
      let second = login_admitted sql conn b pwd_b user_b next f in
      let has_b =
        ap (λ h. find_conn b h.0.user_conn) second ∙ find_conn-set_conn b conn next.user_conn in
      let has_a =
        ap (λ h. find_conn a h.0.user_conn) second
        ∙ find_conn-set_other a b conn next.user_conn d
        ∙ ap (λ h. find_conn a h.0.user_conn) first
        ∙ find_conn-set_conn a conn s.user_conn in
      subst (λ cs. (find_conn a cs ≡ some conn) ⊎ (find_conn b cs ≡ some conn))
        (sym (client_colse-remaining conn both)) (one_stays conn a b both.user_conn d has_a has_b)
