-- ===== src/Netpoll/Wait/Tests.antt =====
-- A goroutine at address 8 that parks on a descriptor, and a thread that notifies it.
use srcrd.Prelude.{
  ℕ, ◌+◌, ◌<◌, ◌≡◌, ◌≢◌, refl, false, true, Option, none, some, arith, inr, ◌==◌, if◌then◌else◌,
}
use srcrd.Netpoll.Wait.{
  pd_ready, PollDesc, mode_r, IsDocumented, holding, double_wait, corrupted, System, wait_starts,
  load, arm, recheck_parks, park, store_then_unblock, compare, swap_goroutine, make_runnable,
  exchange_ready, Reach, start, after,
}
use srcrd.Netpoll.Wait.Safety.{waits_once}

-- A commit that does as documented.
abbrev commit_at : ℕ → ℕ → Option ℕ
commit_at g s = if s == 2 then some g else none

commit_at-IsDocumented : IsDocumented commit_at
commit_at-IsDocumented = record { parks = λ g. refl; refuses = λ g s h. ground arith }

abbrev no_error : PollDesc
no_error = record { closing = false; everr = false; rd_expired = false; wd_expired = false }

abbrev waits : (s : System) × Reach commit_at 8 mode_r 1 no_error s
waits = (
  _,
  after
      (after (after (after (after start (wait_starts refl refl)) (load refl)) (arm refl refl))
        (recheck_parks refl refl))
      (park refl refl),
)

abbrev held : (s : System) × Reach commit_at 8 mode_r 1 no_error s
held = (
  _,
  after
      (after (after waits.1 (store_then_unblock {i = 0} no_error true (omega arith) refl))
        (compare {i = 0} (omega arith) refl (omega arith) (inr refl)))
      (swap_goroutine {i = 0} (omega arith) refl refl (omega arith) (omega arith)),
)

abbrev notified : (s : System) × Reach commit_at 8 mode_r 1 no_error s
notified = (
  _,
  after (after held.1 (make_runnable {i = 0} (omega arith) refl refl)) (exchange_ready refl refl),
)

waits_once_example :
    (held.0.waiter ≢ double_wait)
    × (held.0.waiter ≢ corrupted)
    × (held.0.posted ≡ held.0.taken + (if held.0.gpp == pd_ready then 1 else 0))
    × ((i j : ℕ)
        → i < 1
        → j < 1
        → held.0.unblocker i ≡ holding
        → held.0.unblocker j ≡ holding
        → i ≡ j)
waits_once_example = waits_once commit_at-IsDocumented (omega arith) held.1
