-- ===== src/Xsync/Pool/Tests.antt =====
-- Runs of xsync/pool.go, and each theorem at one of them.
use srcrd.Prelude.{
  ◌∷◌, ◌==◌, false, Bool-cases, if◌then◌else◌, ◌≡◌, refl, none, [], arith, inl, inr,
}
use srcrd.Xsync.PoolQueue.{item}
use srcrd.Xsync.Pool.{pin_world, Pool, World, is_none, put, take, pin, pin_slow, pool_cleanup}
use srcrd.Xsync.Pool.Amount.{amount}
use srcrd.Xsync.Pool.Conserve.{IsPool, Lost, put_adds}
use srcrd.Xsync.Pool.Gets.{take-Lost}
use srcrd.Xsync.Pool.Cleanup.{IsTracked, contains, pin_world-IsTracked, pool_cleanup_twice}

-- The zero value of `Pool`.
abbrev unused : Pool
unused = record { local = []; local_size = 0; victim = []; victim_size = 0; new = none }

unused-IsPool : IsPool unused
unused-IsPool = record {
  local_whole = refl;
  victim_whole = omega arith;
  local_chains = tt;
  victim_chains = tt;
}

-- Processor 0 takes after processor 1 has put.
abbrev filled : Pool
filled = put 1 2 (item 9) unused

filled_size : filled.local_size ≡ 2
unfolding put pin pin_slow
filled_size = refl

take-Lost_example : Lost filled (take 0 2 filled)
take-Lost_example =
    take-Lost 0 2 filled (omega arith) (inl (omega (arith, filled_size)))
      (put_adds 1 2 9 unused (omega arith) (inr refl) unused-IsPool).0

abbrev idle : World
idle = record { pool = λ _. unused; all_pools = []; old_pools = [] }

idle-IsTracked : IsTracked idle
unfolding contains
idle-IsTracked = record { unique = tt; all = λ id. refl; old = λ id e. refl }

-- And pool 5 after its first use.
pinned-IsTracked : IsTracked (pin_world 5 0 2 idle)
pinned-IsTracked = pin_world-IsTracked 5 0 2 idle (omega arith) idle-IsTracked

-- Pool 5 has an item.
abbrev in_use : World
in_use = record {
  pool = λ id. if 5 == id then filled else unused;
  all_pools = 5 ∷ [];
  old_pools = [];
}

filled_local : is_none filled.local ≡ false
unfolding put pin pin_slow
filled_local = refl

filled_victim : filled.victim ≡ []
unfolding put pin pin_slow
filled_victim = refl

in_use-IsTracked : IsTracked in_use
unfolding contains
in_use-IsTracked = record {
  unique = (refl, tt);
  all = λ id. elim (Bool-cases (5 == id)) [ inl e ↦ rw (e, filled_local) refl | inr e ↦ rw e refl ];
  old = λ id e. elim (Bool-cases (5 == id)) [
    | inl q ↦ rw (q, filled_victim) refl
    | inr q ↦ rw q refl
  ];
}

pool_cleanup_twice_example : amount 9 ((pool_cleanup (pool_cleanup in_use)).pool 5) ≡ 0
pool_cleanup_twice_example = pool_cleanup_twice in_use in_use-IsTracked 5 9
