-- ===== src/Netpoll/Wait/Inv.antt =====
-- How the semaphore of netpoll/netpoll3.go stands to the goroutine and to the threads that unblock it.
use srcrd.Prelude.{ℕ, ◌+◌, ◌≤◌, ◌≡◌, ◌≢◌, ◌==◌, if◌then◌else◌}
use srcrd.Threads.{tally}
use srcrd.Netpoll.Wait.{
  pd_ready, Waiter, outside, blocking, loaded, armed, parking, parked, resumed, failed, double_wait,
  corrupted, Unblocker, starting, comparing, holding, System, check_err,
}

-- One weight for each kind of place of a thread.
abbrev pub holds : Unblocker → ℕ
holds holding = 1
holds _ = 0

abbrev pub active : Unblocker → ℕ
active (starting b) = 1
active (comparing b old) = 1
active _ = 0

-- A comparison with pdReady, which does not come about.
abbrev pub stale : Unblocker → ℕ
stale (comparing b old) = if old == pd_ready then 1 else 0
stale _ = 0

-- What holds at each place of the goroutine: of the semaphore, the threads that hold it and those that
-- are on the way, and the error.
abbrev pub Stands : ℕ → Waiter → ℕ → ℕ → ℕ → ℕ → Type 0
Stands g outside gpp h a err = (gpp ≤ 1) × (h ≡ 0)
Stands g blocking gpp h a err = (gpp ≤ 1) × (h ≡ 0)
Stands g (loaded old) gpp h a err = (gpp ≤ 1) × (h ≡ 0) × (old ≤ 1) × (old ≡ 1 → gpp ≡ 1)
Stands g armed gpp h a err = (gpp ≤ 2) × (h ≡ 0)
Stands g parking gpp h a err = (gpp ≤ 2) × (h ≡ 0) × (gpp ≡ 2 → err ≢ 0 → 1 ≤ a)
Stands g parked gpp h a err =
    (h ≤ 1) × (h ≡ 0 → gpp ≡ g) × (h ≡ 1 → gpp ≤ 1) × (h ≡ 0 → err ≢ 0 → 1 ≤ a)
Stands g resumed gpp h a err = (gpp ≤ 2) × (h ≡ 0)
Stands g failed gpp h a err = (gpp ≤ 1) × (h ≡ 0)
Stands g double_wait gpp h a err = ⊥
Stands g corrupted gpp h a err = ⊥

pub record Counts : Type 0 where
  pub holds : ℕ
  pub active : ℕ
  pub stale : ℕ

pub record Holds (g mode : ℕ) (s : System) (c : Counts) : Type 0 where
  pub stands : Stands g s.waiter s.gpp c.holds c.active (check_err s.pd mode)
  pub kept : s.posted ≡ s.taken + (if s.gpp == pd_ready then 1 else 0)
  pub fresh : c.stale ≡ 0

abbrev pub census : ℕ → (ℕ → Unblocker) → Counts
census n f = record { holds = tally holds n f; active = tally active n f; stale = tally stale n f }
