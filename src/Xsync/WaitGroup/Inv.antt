-- ===== src/Xsync/WaitGroup/Inv.antt =====
-- How the state of xsync/waitgroup.go stands to the threads.
use srcrd.Prelude.{ℕ, ◌+◌, ◌*◌, ◌^◌, ◌≤◌, ◌<◌, ◌≡◌, ◌==◌, if◌then◌else◌}
use srcrd.Threads.{tally}
use srcrd.Xsync.WaitGroup.{
  Shared, Pc, outside, checking, releasing, loaded, waiting, woken, returned, panicked, counter,
}

-- What a thread owes the counter, and one weight for each kind of place.
abbrev pub owes : Pc → ℕ
owes (outside u) = u
owes (checking u s) = u
owes (releasing u w) = u
owes _ = 0

abbrev pub checks : Pc → ℕ
checks (checking u s) = 1
checks _ = 0

-- The state that a checking thread compares with, and the wake-ups that a thread has still to give.
abbrev pub sees : Pc → ℕ
sees (checking u s) = s
sees _ = 0

abbrev pub wakes : Pc → ℕ
wakes (releasing u w) = w
wakes _ = 0

abbrev pub waits : Pc → ℕ
waits waiting = 1
waits _ = 0

abbrev pub leaves : Pc → ℕ
leaves woken = 1
leaves _ = 0

abbrev pub dones : Pc → ℕ
dones woken = 1
dones returned = 1
dones _ = 0

-- A panic, or a Wait that goes on with a counter of zero.
abbrev pub faults : Pc → ℕ
faults panicked = 1
faults (loaded s) = if counter s == 0 then 1 else 0
faults _ = 0

pub record Counts : Type 0 where
  pub owes : ℕ
  pub checks : ℕ
  pub sees : ℕ
  pub wakes : ℕ
  pub waits : ℕ
  pub leaves : ℕ
  pub dones : ℕ
  pub faults : ℕ

-- What holds between any two accesses, with `n` threads; `q` is the waiter count in the state.
pub record HoldsAt (n : ℕ) (m : Shared) (c : Counts) (q : ℕ) : Type 0 where
  pub state : m.state ≡ c.owes * 2 ^ 32 + q
  pub small : c.owes < 2 ^ 31
  pub few : c.waits ≤ n
  pub balance : m.sema_count + c.wakes + q ≡ c.waits
  pub open_quiet : 0 < c.owes → (m.sema_count ≡ 0) × (c.wakes ≡ 0) × (c.checks ≡ 0) × (c.dones ≡ 0)
  pub one_check : c.checks ≤ 1
  pub no_check : c.checks ≡ 0 → c.sees ≡ 0
  pub check :
      c.checks ≡ 1 → (c.sees ≡ m.state) × (m.sema_count ≡ 0) × (c.wakes ≡ 0) × (c.leaves ≡ 0)
  pub closed : c.owes ≡ 0 → c.checks ≡ 0 → q ≡ 0
  pub leaving : c.leaves ≤ c.dones
  pub no_faults : c.faults ≡ 0

pub record Holds (n : ℕ) (m : Shared) (c : Counts) : Type 0 where
  pub q : ℕ
  pub at : HoldsAt n m c q

module _ (n : ℕ) (pc : ℕ → Pc) where
  abbrev pub census : Counts
  census = record {
    owes = tally owes n pc;
    checks = tally checks n pc;
    sees = tally sees n pc;
    wakes = tally wakes n pc;
    waits = tally waits n pc;
    leaves = tally leaves n pc;
    dones = tally dones n pc;
    faults = tally faults n pc;
  }
