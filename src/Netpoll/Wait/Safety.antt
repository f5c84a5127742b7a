-- ===== src/Netpoll/Wait/Safety.antt =====
-- What netpoll/netpoll3.go guarantees to a goroutine that waits, in every reachable state.
use srcrd.Prelude.{ℕ, ◌+◌, ◌≤◌, ◌<◌, ◌≡◌, ◌≢◌, Option, arith, ◌==◌, if◌then◌else◌}
use native.Mathlib.Decide.{ℕ_discrete}
use srcrd.Threads.{pair-le-tally}
use srcrd.Netpoll.Wait.{
  pd_ready, PollDesc, IsDocumented, Waiter, outside, blocking, loaded, armed, parking, parked,
  resumed, failed, double_wait, corrupted, holding, System, Reach,
}
use srcrd.Netpoll.Wait.Inv
use srcrd.Netpoll.Wait.Inv.{Stands, Holds, census}
use srcrd.Netpoll.Wait.Steps.{Reach-Holds, at}

one_holder : (g : ℕ) (w : Waiter) (gpp h a err : ℕ) → Stands g w gpp h a err → h ≤ 1
one_holder g outside gpp h a err s = omega arith
one_holder g blocking gpp h a err s = omega arith
one_holder g (loaded old) gpp h a err s = omega arith
one_holder g armed gpp h a err s = omega arith
one_holder g parking gpp h a err s = omega arith
one_holder g parked gpp h a err s = omega arith
one_holder g resumed gpp h a err s = omega arith
one_holder g failed gpp h a err s = omega arith
one_holder g double_wait gpp h a err s = absurd s
one_holder g corrupted gpp h a err s = absurd s

-- A commit as the Go runtime documents it, and a goroutine whose address is above the other values.
module _ {commit : ℕ → ℕ → Option ℕ} (doc : IsDocumented commit) {g : ℕ} (big : 2 < g) {mode n : ℕ}
    {pd : PollDesc} {s : System} (r : Reach commit g mode n pd s) where
  holds : Holds g mode s (census n s.unblocker)
  holds = Reach-Holds doc big r

  -- For a commit as documented and a goroutine at an address above pdWait, in a reachable state: the
  -- goroutine has thrown neither "double wait" nor "corrupted polldesc".
  pub no_throw : (s.waiter ≢ double_wait) × (s.waiter ≢ corrupted)
  no_throw = (λ e. at double_wait holds e, λ e. at corrupted holds e)

  -- For a commit as documented and a goroutine at an address above pdWait, in a reachable state: of the
  -- io notifications that have set the semaphore each was returned once by netpollblock, or is the one
  -- that is pending in it; and two threads that both hold the goroutine to run it are one.
  pub notified_once :
      (s.posted ≡ s.taken + (if s.gpp == pd_ready then 1 else 0))
      × ((i j : ℕ) → i < n → j < n → s.unblocker i ≡ holding → s.unblocker j ≡ holding → i ≡ j)
  notified_once = (
    holds.kept,
    λ i j hi hj e f. elim (ℕ_discrete i j) [
      | yes z ↦ z
      | no z ↦
          let two = pair-le-tally Inv.holds n i j s.unblocker hi hj z in
          let one = one_holder g s.waiter s.gpp _ _ _ holds.stands in
          absurd (omega (arith, (rw (e, f) at two), one))
    ],
  )

  -- For a commit as documented and a goroutine at an address above pdWait, in a reachable state: the
  -- goroutine has thrown neither "double wait" nor "corrupted polldesc"; of the io notifications that have
  -- set the semaphore each was returned once by netpollblock, or is the one that is pending in it; and
  -- two threads that both hold the goroutine to run it are one.
  pub waits_once :
      (s.waiter ≢ double_wait)
      × (s.waiter ≢ corrupted)
      × (s.posted ≡ s.taken + (if s.gpp == pd_ready then 1 else 0))
      × ((i j : ℕ) → i < n → j < n → s.unblocker i ≡ holding → s.unblocker j ≡ holding → i ≡ j)
  waits_once = (no_throw.0, no_throw.1, notified_once.0, notified_once.1)
