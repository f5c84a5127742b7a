-- ===== src/Xsync/WaitGroup/Tests.antt =====
-- A run of xsync/waitgroup.go, and each theorem at a state of it.
use srcrd.Prelude.{ℕ, zero, suc, ◌<◌, ◌≡◌, ◌≢◌, refl, false, arith, some}
use srcrd.Threads.{tally}
use srcrd.Xsync.Sema.{counting, counting-IsDocumented}
use srcrd.Xsync.WaitGroup.{
  panicked, System, turn, Reach, start, after, add_returns, add_wakes, check_same, release_one,
  release_end, wait_load, swap_done, acquire, wake_returns,
}
use srcrd.Xsync.WaitGroup.Inv.{owes}
use srcrd.Xsync.WaitGroup.Safety.{adds, returned_at_zero, calls_no_panic, wait_can_go}

-- Thread 0 owes two units.
abbrev two_units : ℕ → ℕ
two_units zero = 2
two_units (suc i) = 0

-- Thread 1 waits, and thread 0 has taken both units away and has released the semaphore.
abbrev released : (s : System) × Reach counting 2 two_units s
unfolding tally
released = (
  _,
  after
      (after
        (after
          (after
            (after
              (after (after start (turn 1 (omega arith) (wait_load refl (omega arith))))
                (turn 1 (omega arith) (swap_done refl)))
              (turn 0 (omega arith) (add_returns {u = 2} {v = 1} (ground arith) refl)))
            (turn 0 (omega arith) (add_wakes {u = 1} {v = 0} (ground arith) refl)))
          (turn 0 (omega arith) (check_same refl)))
        (turn 0 (omega arith) (release_one refl)))
      (turn 0 (omega arith) (release_end refl)),
)

abbrev all_returned : (s : System) × Reach counting 2 two_units s
unfolding tally
all_returned = (
  _,
  after (after released.1 (turn 1 (omega arith) (acquire refl)))
      (turn 1 (omega arith) (wake_returns refl)),
)

few_units : tally (λ u. u) 2 two_units < 2147483648
unfolding tally
few_units = omega arith

returned_at_zero_example : owes (all_returned.0.pc 0) ≡ 0
unfolding tally
returned_at_zero_example =
    returned_at_zero counting-IsDocumented (omega arith) few_units all_returned.1 1 0 (omega arith)
      (omega arith) refl

calls_no_panic_example : all_returned.0.pc 0 ≢ panicked
unfolding tally
calls_no_panic_example =
    calls_no_panic counting-IsDocumented (omega arith) few_units all_returned.1 0 (omega arith)

all_paid : (j : ℕ) → j < 2 → owes (released.0.pc j) ≡ 0
unfolding tally
all_paid zero h = refl
all_paid (suc zero) h = refl
all_paid (suc (suc j)) h = absurd (omega arith)

all_quiet : (j : ℕ) → j < 2 → adds (released.0.pc j) ≡ false
unfolding tally
all_quiet zero h = refl
all_quiet (suc zero) h = refl
all_quiet (suc (suc j)) h = absurd (omega arith)

wait_can_go_example : (t : ℕ) × (counting.acquire released.0.mem.sema_count ≡ some t)
unfolding tally
wait_can_go_example =
    wait_can_go counting-IsDocumented (omega arith) few_units released.1 1 (omega arith) refl
      all_paid all_quiet
