-- ===== src/ConnectPool/Copy.antt =====
-- The copy of the pool in mysql连接池/src/ConnectPool.cpp, whose deleter counts nothing.
use learn_git.Base.{
  ℕ, zero, suc, ◌-◌, ◌≡◌, ◌≤◌, refl, List, [], ◌∷◌, ◌++◌, arith, length, length-append, Option,
  none, some, ◌∙◌, ap, ltb,
}
use learn_git.ConnectPool.Pool.{MysqlDb, ConnectPool, must_produce, getconn}

unfoldable pub give_back_uncounted : ℕ → MysqlDb → ConnectPool → ConnectPool
give_back_uncounted now d p = record p { queue = p.queue ++ record { id = d.id; last = now } ∷ [] }

abbrev pub return_taken : ℕ → ConnectPool × Option MysqlDb → ConnectPool
return_taken now (p, none) = p
return_taken now (p, some d) = give_back_uncounted now d p

-- A borrower takes a connection and returns it, so many times.
unfoldable pub use_connections : ℕ → ℕ → ConnectPool → ConnectPool
use_connections zero now p = p
use_connections (suc rounds) now p = use_connections rounds now (return_taken now (getconn p))

one_use :
    (now : ℕ) (p : ConnectPool)
    → p.cur_free_size ≤ length p.queue
    → let q = return_taken now (getconn p) in
      (q.cur_free_size ≡ p.cur_free_size - 1)
      × (length q.queue ≡ length p.queue)
      × (q.cur_size ≡ p.cur_size)
      × (q.max_size ≡ p.max_size)
unfolding getconn give_back_uncounted
one_use now p h = go p.queue refl
  where
    go :
        (q : List MysqlDb)
        → p.queue ≡ q
        → ((return_taken now (getconn p)).cur_free_size ≡ p.cur_free_size - 1)
          × (length (return_taken now (getconn p)).queue ≡ length p.queue)
          × ((return_taken now (getconn p)).cur_size ≡ p.cur_size)
          × ((return_taken now (getconn p)).max_size ≡ p.max_size)
    go [] e = ground (arith, ap length e)
    go (d ∷ ds) e =
        ground (arith, ap length e, length-append ds (record { id = d.id; last = now } ∷ []))

-- After as many uses as connections are counted free, or more, the pool lends none, though as many
-- connections as before are in its queue; its producer makes one more exactly if the pool was below
-- its maximal size.
pub copy_runs_out :
    (rounds now : ℕ) (p : ConnectPool)
    → p.cur_free_size ≤ rounds
    → p.cur_free_size ≤ length p.queue
    → let q = use_connections rounds now p in
      ((getconn q).1 ≡ none)
      × (length q.queue ≡ length p.queue)
      × (must_produce q ≡ ltb p.cur_size p.max_size)
unfolding use_connections
copy_runs_out zero now p a b =
    (unfold getconn in ground arith, refl, unfold must_produce in ground arith)
copy_runs_out (suc rounds) now p a b =
    let s = one_use now p b in
    let rest =
      copy_runs_out rounds now (return_taken now (getconn p)) (omega (arith, s))
        (omega (arith, s)) in
    (rest.0, rest.1 ∙ s.1, rest.2 ∙ rw (s.2, s.3) refl)
