-- ===== src/Xsync/WaitGroup/Safety.antt =====
-- What the wait group of xsync/waitgroup.go guarantees to its users, in every reachable state.
use srcrd.Prelude.{ℕ, suc, ◌-◌, ◌^◌, ◌≤◌, ◌<◌, ◌≡◌, ◌≢◌, Bool, true, false, arith, some, ap, ◌∙◌}
use srcrd.Threads.{tally, weight-le-tally, tally-eq-zero}
use srcrd.Xsync.Sema.{Semaphore, IsDocumented}
use srcrd.Xsync.WaitGroup.{Pc, checking, releasing, waiting, returned, panicked, System, Reach}
use srcrd.Xsync.WaitGroup.Inv.{HoldsAt, Holds, owes, checks, wakes, waits, dones, faults, census}
use srcrd.Xsync.WaitGroup.Reachable.{Reach-Holds}

-- A thread inside Add, after its first access.
abbrev pub adds : Pc → Bool
adds (checking u s) = true
adds (releasing u w) = true
adds _ = false

adds-none : (p : Pc) → adds p ≡ false → (checks p ≡ 0) × (wakes p ≡ 0)
adds-none p e = ground arith

-- In what follows the threads, fewer than 2 ^ 31, and the units that they owe at first, fewer than
-- 2 ^ 31 as well, have run for any number of accesses.
module _ {sema : Semaphore} (doc : IsDocumented sema) {n : ℕ} (fewer : n < 2 ^ 31) {units : ℕ → ℕ}
    (fits : tally (λ u. u) n units < 2 ^ 31) {s : System} (r : Reach sema n units s) where
  reached : Holds n s.mem (census n s.pc)
  reached = Reach-Holds doc fewer fits r

  holds : HoldsAt n s.mem (census n s.pc) reached.q
  holds = reached.at

  in_tally : (w : Pc → ℕ) (i : ℕ) {p : Pc} → i < n → s.pc i ≡ p → w p ≤ tally w n s.pc
  in_tally w i lt e = rw e at (weight-le-tally w n i s.pc lt)

  -- For fewer than 2 ^ 31 threads and units, a semaphore as documented, calls of Add as documented, and
  -- a reachable state: once a thread has returned from Wait, every unit has been taken away.
  pub returned_at_zero : (i j : ℕ) → i < n → j < n → s.pc i ≡ returned → owes (s.pc j) ≡ 0
  returned_at_zero i j hi hj e =
      ground (arith, in_tally dones i hi e, weight-le-tally owes n j s.pc hj, holds.open_quiet)

  -- For fewer than 2 ^ 31 threads and units, a semaphore as documented, calls of Add as documented, and
  -- a reachable state: no thread has panicked, for a negative counter, an Add concurrent with Wait, or
  -- a reuse.
  pub calls_no_panic : (i : ℕ) → i < n → s.pc i ≢ panicked
  calls_no_panic i lt e = omega (arith, in_tally faults i lt e, holds.no_faults)

  -- For fewer than 2 ^ 31 threads and units, a semaphore as documented, calls of Add as documented, and
  -- a reachable state: a thread that waits can go on, once nobody owes a unit or is inside of Add.
  pub wait_can_go :
      (i : ℕ)
      → i < n
      → s.pc i ≡ waiting
      → ((j : ℕ) → j < n → owes (s.pc j) ≡ 0)
      → ((j : ℕ) → j < n → adds (s.pc j) ≡ false)
      → (t : ℕ) × (sema.acquire s.mem.sema_count ≡ some t)
  wait_can_go i lt e paid quiet =
      (s.mem.sema_count - 1, ap sema.acquire left ∙ doc.acquire_suc (s.mem.sema_count - 1))
    where
      none_owed : tally owes n s.pc ≡ 0
      none_owed = tally-eq-zero owes n s.pc paid

      none_check : tally checks n s.pc ≡ 0
      none_check = tally-eq-zero checks n s.pc (λ j h. (adds-none (s.pc j) (quiet j h)).0)

      none_wake : tally wakes n s.pc ≡ 0
      none_wake = tally-eq-zero wakes n s.pc (λ j h. (adds-none (s.pc j) (quiet j h)).1)

      left : s.mem.sema_count ≡ suc (s.mem.sema_count - 1)
      left = omega (
        arith,
        in_tally waits i lt e,
        holds.balance,
        none_wake,
        holds.closed none_owed none_check,
      )
