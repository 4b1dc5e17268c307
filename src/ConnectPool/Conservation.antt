-- ===== src/ConnectPool/Conservation.antt =====
-- What holds in every state of a pool.
use learn_git.Base.{
  ℕ, zero, suc, ◌+◌, ◌-◌, ◌≡◌, ◌≤◌, refl, List, [], ◌∷◌, ◌++◌, arith, length, length-append, true,
  false, ltb, ◌==◌, if◌then◌else◌, ◌⊎◌, inr, ap, some, Bool-cases, ◌∙◌, inl, ◌&&◌, subst, sym, ◌<◌,
}
use learn_git.ConnectPool.Pool.{
  MysqlDb, ConnectPool, push_new, fill_initial, new_pool, must_produce, produce_connect, getconn,
  give_back, reap_loop, free_time_over, shut, free_time, over_ten,
}
use learn_git.ConnectPool.Steps.{
  System, Step, produces, borrows, returns, reaps, shuts, start, Reach, started, later,
}

-- How often a connection occurs.
abbrev pub occurs : ℕ → List MysqlDb → ℕ
occurs i [] = 0
occurs i (d ∷ ds) = (if d.id == i then 1 else 0) + occurs i ds

occurs-append : (i : ℕ) (xs ys : List MysqlDb) → occurs i (xs ++ ys) ≡ occurs i xs + occurs i ys
occurs-append i [] ys = omega arith
occurs-append i (x ∷ xs) ys = omega (arith, occurs-append i xs ys)

-- The counters agree with the connections, the pool does not outgrow its bounds, and a connection is
-- idle or lent to one borrower, never twice.
pub record IsConserved (s : System) : Type 0 where
  pub free : s.pool.cur_free_size ≡ length s.pool.queue
  pub total : s.pool.cur_size ≡ length s.pool.queue + length s.lent
  pub bounded : (s.pool.cur_size ≤ s.pool.init_size) ⊎ (s.pool.cur_size ≤ s.pool.max_size)
  pub single :
      (i : ℕ) → occurs i s.pool.queue + occurs i s.lent ≤ (if ltb i s.next_id then 1 else 0)

push_new-IsConserved :
    (s : System)
    → (s.pool.cur_size < s.pool.init_size) ⊎ (s.pool.cur_size < s.pool.max_size)
    → IsConserved s
    → IsConserved
        (record { pool = push_new s.next_id s.pool; lent = s.lent; next_id = s.next_id + 1 })
unfolding push_new
push_new-IsConserved s g v = record {
  free =
      omega (arith, v.free, length-append s.pool.queue (record { id = s.next_id; last = 0 } ∷ []));
  total =
      omega (arith, v.total, length-append s.pool.queue (record { id = s.next_id; last = 0 } ∷ []));
  bounded = ground arith;
  single = λ i.
      ground (
        arith,
        v.single i,
        occurs-append i s.pool.queue (record { id = s.next_id; last = 0 } ∷ []),
      );
}

returns-IsConserved :
    (s : System) (now : ℕ) (before after : List MysqlDb) (d : MysqlDb)
    → s.lent ≡ before ++ d ∷ after
    → IsConserved s
    → IsConserved
        (record { pool = give_back now d s.pool; lent = before ++ after; next_id = s.next_id })
unfolding give_back
returns-IsConserved s now before after d e v =
    let back : MysqlDb = record { id = d.id; last = now } in
    let queued = length-append s.pool.queue (back ∷ []) in
    let held : length s.lent ≡ length before + suc (length after) =
      ap length e ∙ length-append before (d ∷ after) in
    let left = length-append before after in
    record {
      free = omega (arith, v.free, queued);
      total = omega (arith, v.total, queued, held, left);
      bounded = v.bounded;
      single = λ i.
          let lent : occurs i s.lent ≡ occurs i before + occurs i (d ∷ after) =
            ap (occurs i) e ∙ occurs-append i before (d ∷ after) in
          let parts = occurs-append i before after in
          let more = occurs-append i s.pool.queue (back ∷ []) in ground (arith, v.single i);
    }

reap_loop-drops :
    (now init_size : ℕ) (ds : List MysqlDb) (free size lent : ℕ)
    → free ≡ length ds
    → size ≡ length ds + lent
    → let done = reap_loop now init_size ds free size in
      (done.1 ≡ length done.0)
      × (done.2 ≡ length done.0 + lent)
      × (done.2 ≤ size)
      × ((i : ℕ) → occurs i done.0 ≤ occurs i ds)
unfolding reap_loop
reap_loop-drops now init_size [] free size lent a b = (a, b, omega arith, λ i. omega arith)
reap_loop-drops now init_size (d ∷ ds) free size lent a b =
    let rest =
      reap_loop-drops now init_size ds (free - 1) (size - 1) lent (omega arith) (omega arith) in
    elim (Bool-cases (ltb init_size size && over_ten (free_time now d))) [
      | inl t ↦ rw t (rest.0, rest.1, omega (arith, rest.2), λ i. omega (arith, rest.3 i))
      | inr f ↦ rw f (a, b, omega arith, λ i. omega arith)
    ]

reaps-IsConserved :
    (s : System) (now : ℕ)
    → IsConserved s
    → IsConserved (record { pool = free_time_over now s.pool; lent = s.lent; next_id = s.next_id })
unfolding free_time_over
reaps-IsConserved s now v =
    let done =
      reap_loop-drops now s.pool.init_size s.pool.queue s.pool.cur_free_size s.pool.cur_size
        (length s.lent) v.free v.total in
    record {
      free = done.0;
      total = done.1;
      bounded = ground (arith, done.2, v.bounded);
      single = λ i. omega (arith, done.3 i, v.single i);
    }

-- A connection that is handed out was the front of the queue.
getconn-takes :
    (p : ConnectPool) (d : MysqlDb)
    → (getconn p).1 ≡ some d
    → (ds : List MysqlDb) × (p.queue ≡ d ∷ ds)
      × ((getconn p).0 ≡ record p { queue = ds; cur_free_size = p.cur_free_size - 1 })
unfolding getconn
getconn-takes p d e = ground arith

borrows-IsConserved :
    (s : System) (d : MysqlDb)
    → (getconn s.pool).1 ≡ some d
    → IsConserved s
    → IsConserved (record { pool = (getconn s.pool).0; lent = d ∷ s.lent; next_id = s.next_id })
borrows-IsConserved s d e v =
    let t = getconn-takes s.pool d e in
    let size : length s.pool.queue ≡ suc (length t.0) = ap length t.1 in
    subst (λ p. IsConserved (record { pool = p; lent = d ∷ s.lent; next_id = s.next_id })) (sym t.2)
      (record {
        free = omega (arith, v.free, size);
        total = omega (arith, v.total, size);
        bounded = v.bounded;
        single = λ i.
            let front : occurs i s.pool.queue ≡ occurs i (d ∷ t.0) = ap (occurs i) t.1 in
            omega (arith, v.single i, front);
      })

produce_connect_lem :
    (p : ConnectPool) (id : ℕ)
    → must_produce p ≡ true
    → produce_connect true true id p ≡ push_new id p
unfolding produce_connect
produce_connect_lem p id g = simp g

Step-IsConserved : (s t : System) → Step s t → IsConserved s → IsConserved t
Step-IsConserved s t (produces g) v =
    subst (λ p. IsConserved (record { pool = p; lent = s.lent; next_id = s.next_id + 1 }))
      (sym (produce_connect_lem s.pool s.next_id g))
      (push_new-IsConserved s (inr (unfold must_produce in ground arith)) v)
Step-IsConserved s t (borrows d e) v = borrows-IsConserved s d e v
Step-IsConserved s t (returns now before after d e) v = returns-IsConserved s now before after d e v
Step-IsConserved s t (reaps now) v = reaps-IsConserved s now v
Step-IsConserved s t shuts v =
    unfold shut in record { free = v.free; total = v.total; bounded = v.bounded; single = v.single }

fill_initial-IsConserved :
    (rounds id next : ℕ) (p : ConnectPool)
    → IsConserved (record { pool = p; lent = []; next_id = id })
    → p.cur_size + rounds ≤ p.init_size
    → next ≡ id + rounds
    → IsConserved (record { pool = fill_initial rounds id p; lent = []; next_id = next })
unfolding fill_initial
fill_initial-IsConserved zero id next p v h e =
    let same : id ≡ next = omega arith in
    subst (λ k. IsConserved (record { pool = p; lent = []; next_id = k })) same v
fill_initial-IsConserved (suc rounds) id next p v h e =
    fill_initial-IsConserved rounds (id + 1) next (push_new id p)
      (push_new-IsConserved (record { pool = p; lent = []; next_id = id }) (inl (omega arith)) v)
      (unfold push_new in omega arith) (omega arith)

start-IsConserved : (init_size max_size : ℕ) → IsConserved (start init_size max_size)
unfolding new_pool
start-IsConserved init_size max_size =
    let empty : ConnectPool = record {
      queue = [];
      init_size = init_size;
      cur_free_size = 0;
      cur_size = 0;
      max_size = max_size;
      running = false;
    } in
    let v =
      fill_initial-IsConserved init_size 0 init_size empty
        (record {
          free = refl;
          total = omega arith;
          bounded = inl (omega arith);
          single = λ i. ground arith;
        })
        (omega arith) (omega arith) in
    record { free = v.free; total = v.total; bounded = v.bounded; single = v.single }

-- In every state that a pool reaches, with its threads interleaved in any order and any successful
-- connections: the free count is the number of idle connections, the size counts the idle and the
-- lent ones, it does not exceed the larger of the initial and the maximal size, and no connection is
-- idle or lent twice.
pub Reach-IsConserved :
    {init_size max_size : ℕ} {s : System} → Reach init_size max_size s → IsConserved s
Reach-IsConserved started = start-IsConserved _ _
Reach-IsConserved (later r st) = Step-IsConserved _ _ st (Reach-IsConserved r)
