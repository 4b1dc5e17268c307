-- ===== src/Mysql/Connection.antt =====
-- The life of a MysqlDB (MysqlDB.cpp): its constructor, connection and its destructor. The client
-- library is a record of the calls; a handle is a number, and the Boolean of `real_connect` tells
-- whether it failed.
use learn_git.Base.{ℕ, Bool, Option, ◌≡◌, some, false, if◌then◌else◌, true, none, refl}

pub record Handles : Type 1 where
  pub World : Type 0
  pub init : World → World × Option ℕ
  pub real_connect : World → ℕ → World × Bool
  pub close : World → ℕ → World

module _ (api : Handles) where
  open api use {World, init, real_connect, close}

  -- The member `_conn`.
  unfoldable pub new_db : World → World × Option ℕ
  new_db w = init w

  unfoldable pub connection : World → Option ℕ → World × Bool
  connection w none = (w, false)
  connection w (some conn) =
      let tried = real_connect w conn in
      if tried.1 then (close tried.0 conn, false) else (tried.0, true)

  unfoldable pub destroy : World → Option ℕ → World
  destroy w none = w
  destroy w (some conn) = close w conn

  -- A connection that fails has its handle closed by connection and once more by the destructor.
  pub failed_connection-destroy :
      (w : World) (conn : ℕ)
      → (real_connect w conn).1 ≡ true
      → destroy (connection w (some conn)).0 (some conn)
        ≡ close (close (real_connect w conn).0 conn) conn
  unfolding connection destroy
  failed_connection-destroy w conn failed = rw failed refl
