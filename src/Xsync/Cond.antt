-- ===== src/Xsync/Cond.antt =====
-- xsync/cond.go: goroutines that wait for a broadcast, with the lock of the Cond. The notify list is the Go
-- runtime's, and a parameter.
pub mod Wakes
pub mod Locked
mod Tests
use srcrd.Prelude.{ℕ, ◌+◌, ◌≡◌, ◌≢◌, Bool, true, false, Option, none, some}
use srcrd.Threads.{assign}

-- `runtime_notifyListAdd` with its ticket, `runtime_notifyListNotifyAll`, and whether
-- `runtime_notifyListWait` lets a ticket go on.
pub record NotifyList (L : Type 0) : Type 0 where
  pub empty : L
  pub add : L → ℕ × L
  pub notify_all : L → L
  pub lets_go : L → ℕ → Bool

-- A ticket is new and waits; "notifyListNotifyAll notifies all entries in the list".
pub record IsDocumented {L : Type 0} (notify : NotifyList L) (handed : L → ℕ → Bool) : Type 0 where
  pub hands : (l : L) → handed (notify.add l).1 (notify.add l).0 ≡ true
  pub hands_new : (l : L) (t : ℕ) → handed l t ≡ true → t ≢ (notify.add l).0
  pub hands_more : (l : L) (t : ℕ) → handed l t ≡ true → handed (notify.add l).1 t ≡ true
  pub keeps : (l : L) (t : ℕ) → handed (notify.notify_all l) t ≡ handed l t
  pub waits : (l : L) → notify.lets_go (notify.add l).1 (notify.add l).0 ≡ false
  pub others :
      (l : L) (t : ℕ)
      → t ≢ (notify.add l).0
      → notify.lets_go (notify.add l).1 t ≡ notify.lets_go l t
  pub all : (l : L) (t : ℕ) → handed l t ≡ true → notify.lets_go (notify.notify_all l) t ≡ true

-- Where a goroutine stands. In Wait it has a ticket, and `casts` is the number of broadcasts before it got
-- that.
pub data Pc : Type 0 where
  outside : Pc
  inside : Pc  -- with the lock
  added : (t casts : ℕ) → Pc  -- in Wait, before `c.L.Unlock()`
  sleeping : (t casts : ℕ) → Pc  -- in runtime_notifyListWait
  locking : (casts : ℕ) → Pc  -- before `c.L.Lock()`

-- `Cond`, the goroutine that has its lock, the goroutines, and the number of broadcasts.
pub record System (L : Type 0) : Type 0 where
  pub notify : L
  pub holder : Option ℕ
  pub pc : ℕ → Pc
  pub casts : ℕ

module _ {L : Type 0} (notify : NotifyList L) where
  -- One step of the goroutine `i`.
  pub data Step (s : System L) : System L → Type 0 where
    lock :
        (i : ℕ)
        → s.pc i ≡ outside
        → s.holder ≡ none
        → Step s (record s { holder = some i; pc = assign s.pc i inside })
    unlock :
        (i : ℕ) → s.pc i ≡ inside → Step s (record s { holder = none; pc = assign s.pc i outside })
    wait_add :
        (i : ℕ)
        → s.pc i ≡ inside
        → Step s (record s {
          notify = (notify.add s.notify).1;
          pc = assign s.pc i (added (notify.add s.notify).0 s.casts);
        })
    wait_unlock :
        (i : ℕ) {t b : ℕ}
        → s.pc i ≡ added t b
        → Step s (record s { holder = none; pc = assign s.pc i (sleeping t b) })
    wait_wakes :
        (i : ℕ) {t b : ℕ}
        → s.pc i ≡ sleeping t b
        → notify.lets_go s.notify t ≡ true
        → Step s (record s { pc = assign s.pc i (locking b) })
    wait_lock :
        (i : ℕ) {b : ℕ}
        → s.pc i ≡ locking b
        → s.holder ≡ none
        → Step s (record s { holder = some i; pc = assign s.pc i inside })
    -- `Broadcast`, by anyone, with the lock or without it.
    broadcast : Step s (record s { notify = notify.notify_all s.notify; casts = s.casts + 1 })

  pub data Reach : System L → Type 0 where
    start : Reach (record { notify = notify.empty; holder = none; pc = λ _. outside; casts = 0 })
    after : {s t : System L} → Reach s → Step s t → Reach t
