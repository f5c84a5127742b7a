-- ===== src/Xsync/Once/Safety.antt =====
-- What xsync/once.go guarantees to its users, in every reachable state.
use srcrd.Prelude.{ℕ, ◌≤◌, ◌<◌, ◌≡◌, true, arith}
use srcrd.Threads.{tally, weight-le-tally, tally-eq-zero}
use srcrd.Xsync.Once.{Pc, locking, checking, returned, System, Move, lock, Reach}
use srcrd.Xsync.Once.Inv.{Holds, holds, settled, census, Reach-Holds}

module _ {n : ℕ} {s : System} (r : Reach n s) where
  invariant : Holds s.mem (census n s.pc)
  invariant = Reach-Holds r

  in_tally : (w : Pc → ℕ) (i : ℕ) {p : Pc} → i < n → s.pc i ≡ p → w p ≤ tally w n s.pc
  in_tally w i lt e = rw e at (weight-le-tally w n i s.pc lt)

  -- In a reachable state, once some `Do` has returned, the function has been called once, and that call
  -- has ended.
  pub returned_after_call :
      (i : ℕ) → i < n → s.pc i ≡ returned → (s.mem.calls ≡ 1) × (s.mem.ends ≡ 1)
  returned_after_call i lt e =
      let d : s.mem.done ≡ 1 = invariant.done_first (omega (arith, in_tally settled i lt e)) in
      omega (arith, invariant.called, invariant.ended, invariant.undone d)

  -- In a reachable state, the function has been called once at most.
  pub called_at_most_once : s.mem.calls ≤ 1
  called_at_most_once =
      ground
        (arith, invariant.called, invariant.undone, invariant.flag, invariant.inside, invariant.one)

  -- In a reachable state, a `Do` that waits for the lock can go on once nobody has it.
  pub lock_can_go :
      (i : ℕ)
      → i < n
      → s.pc i ≡ locking
      → ((j : ℕ) → j < n → holds (s.pc j) ≡ 0)
      → Move s.mem (s.pc i) (record s.mem { locked = true }) checking
  lock_can_go i lt e h = rw e (lock (ground (arith, invariant.taken, tally-eq-zero holds n s.pc h)))
