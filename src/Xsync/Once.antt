-- ===== src/Xsync/Once.antt =====
-- xsync/once.go: the call that is made once, an access at a time, with any number of goroutines
-- interleaved. The mutex is Go's own, which the model takes as documented: one goroutine holds it at a time.
pub mod Inv
pub mod Safety
mod Tests
use srcrd.Prelude.{ℕ, ◌+◌, ◌<◌, ◌≡◌, ◌≢◌, Bool, true, false}
use srcrd.Threads.{assign}

-- `Once`, and for the theorems: how often the function was called, and how often it has ended.
pub record Shared : Type 0 where
  pub done : ℕ
  pub locked : Bool
  pub calls : ℕ
  pub ends : ℕ

-- Where a goroutine stands in `Do`.
pub data Pc : Type 0 where
  outside : Pc
  locking : Pc  -- in doSlow, before the lock
  checking : Pc  -- with the lock, before the second look at `done`
  calling : Pc  -- before `f()`
  running : Pc  -- in `f()`
  storing : Pc  -- after it, also after its panic, before the store of `done`
  unlocking : Pc  -- before the unlock
  returned : Pc

-- One access of one goroutine.
pub data Move (m : Shared) : Pc → Shared → Pc → Type 0 where
  load_done : m.done ≢ 0 → Move m outside m returned
  load_zero : m.done ≡ 0 → Move m outside m locking
  lock : m.locked ≡ false → Move m locking (record m { locked = true }) checking
  check_done : m.done ≢ 0 → Move m checking m unlocking
  check_zero : m.done ≡ 0 → Move m checking m calling
  call : Move m calling (record m { calls = m.calls + 1 }) running
  end : Move m running (record m { ends = m.ends + 1 }) storing
  store : Move m storing (record m { done = 1 }) unlocking
  unlock : Move m unlocking (record m { locked = false }) returned

pub record System : Type 0 where
  pub mem : Shared
  pub pc : ℕ → Pc

abbrev pub init : System
init = record { mem = record { done = 0; locked = false; calls = 0; ends = 0 }; pc = λ _. outside }

module _ (n : ℕ) where
  pub data Step (s : System) : System → Type 0 where
    turn :
        (i : ℕ) {m : Shared} {p : Pc}
        → i < n
        → Move s.mem (s.pc i) m p
        → Step s (record { mem = m; pc = assign s.pc i p })

  pub data Reach : System → Type 0 where
    start : Reach init
    after : {s t : System} → Reach s → Step s t → Reach t
