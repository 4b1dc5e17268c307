-- ===== src/ConnectPool/Reaper.antt =====
-- Which connections the reaper closes (freetimeover).
use learn_git.Base.{
  ℕ, ◌+◌, ◌-◌, ◌≡◌, ◌≤◌, ◌<◌, refl, List, [], ◌∷◌, ◌++◌, arith, length, true, ltb, ◌⊎◌, inl, inr,
  Bool-cases, ap, ◌/◌, ◌%◌, false,
}
use learn_git.ConnectPool.Pool.{
  MysqlDb, ConnectPool, free_time, reap_loop, free_time_over, over_ten,
}

-- The seconds since the last return, of which an int keeps 32 bits.
abbrev pub kept_seconds : ℕ → MysqlDb → ℕ
kept_seconds now d = (now - d.last) / 1000000000 % 4294967296

-- More than ten, and not so many that the int is negative.
abbrev pub IsOver : ℕ → MysqlDb → Type 0
IsOver now d = (10 < kept_seconds now d) × (kept_seconds now d < 2147483648)

abbrev pub AllOver : ℕ → List MysqlDb → Type 0
AllOver now [] = Unit {0}
AllOver now (d ∷ ds) = IsOver now d × AllOver now ds

abbrev pub FrontFresh : ℕ → List MysqlDb → Type 0
FrontFresh now [] = Unit {0}
FrontFresh now (d ∷ ds) = (kept_seconds now d ≤ 10) ⊎ (2147483648 ≤ kept_seconds now d)

over_ten-IsOver : (now : ℕ) (d : MysqlDb) → over_ten (free_time now d) ≡ true → IsOver now d
unfolding free_time
over_ten-IsOver now d h = ground (arith, h)

over_ten-fresh :
    (now : ℕ) (d : MysqlDb)
    → over_ten (free_time now d) ≡ false
    → (kept_seconds now d ≤ 10) ⊎ (2147483648 ≤ kept_seconds now d)
unfolding free_time
over_ten-fresh now d h = ground (arith, h)

-- A front part of the queue is closed, all of it idle for too long; it ends where the pool is down
-- to its initial size, or where the next connection is fresh.
pub record IsReaped (now init_size : ℕ) (before after : List MysqlDb) (size size' : ℕ)
    : Type 0 where
  pub closed : List MysqlDb
  pub split : before ≡ closed ++ after
  pub over : AllOver now closed
  pub counted : size ≡ size' + length closed
  pub floor : (size' ≡ size) ⊎ (init_size ≤ size')
  pub ends : (size' ≤ init_size) ⊎ FrontFresh now after

reap_loop-IsReaped :
    (now init_size : ℕ) (ds : List MysqlDb) (free size : ℕ)
    → length ds ≤ size
    → let done = reap_loop now init_size ds free size in
      IsReaped now init_size ds done.0 size done.2
unfolding reap_loop
reap_loop-IsReaped now init_size [] free size h = record {
  closed = [];
  split = refl;
  over = tt;
  counted = omega arith;
  floor = inl refl;
  ends = inr tt;
}
reap_loop-IsReaped now init_size (d ∷ ds) free size h =
    let rest = reap_loop-IsReaped now init_size ds (free - 1) (size - 1) (omega arith) in
    elim (Bool-cases (ltb init_size size)) [
      | inl t ↦ elim (Bool-cases (over_ten (free_time now d))) [
        | inl o ↦
            rw (t, o)
              (record {
                closed = d ∷ rest.closed;
                split = ap (◌∷◌ d) rest.split;
                over = (over_ten-IsOver now d o, rest.over);
                counted = omega (arith, rest.counted);
                floor = inr (ground (arith, rest.floor));
                ends = rest.ends;
              })
        | inr o ↦
            rw (t, o)
              (record {
                closed = [];
                split = refl;
                over = tt;
                counted = omega arith;
                floor = inl refl;
                ends = inr (over_ten-fresh now d o);
              })
      ]
      | inr f ↦ rw f (record {
        closed = [];
        split = refl;
        over = tt;
        counted = omega arith;
        floor = inl refl;
        ends = inl (ground arith);
      })
    ]

-- A round of the reaper of a pool whose size counts its idle connections closes a front part
-- of the queue, does not take the pool below its initial size, and stops there or at the first
-- connection that is fresh. Closed are connections whose whole seconds since the last return, or since
-- the epoch when they were never returned, are more than ten as an int of 32 bits; fresh is one with at
-- most ten, and one whose seconds from 2^31 on have become a negative int.
pub free_time_over-IsReaped :
    (now : ℕ) (p : ConnectPool)
    → length p.queue ≤ p.cur_size
    → IsReaped now p.init_size p.queue
        (free_time_over now p).queue
        p.cur_size
        (free_time_over now p).cur_size
unfolding free_time_over
free_time_over-IsReaped now p h =
    reap_loop-IsReaped now p.init_size p.queue p.cur_free_size p.cur_size h
