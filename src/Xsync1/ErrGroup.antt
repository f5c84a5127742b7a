-- ===== src/Xsync1/ErrGroup.antt =====
-- xsync1/errgroup.go: a group of tasks, with any number of goroutines interleaved. The group uses Go's own
-- sync.WaitGroup and sync.Once, which the model takes as documented: a counter that Wait waits on to be
-- zero, and a call that only the first caller runs and that the others wait for. An error is a number.
pub mod Inv
pub mod Steps
pub mod Reachable
pub mod Safety
mod Tests
use srcrd.Prelude.{
  ℕ, ◌+◌, ◌-◌, ◌<◌, ◌≡◌, Bool, false, ◌||◌, Option, none, some, List, [], ◌∷◌, ◌++◌,
}
use srcrd.Threads.{assign}

-- The call of `errOnce`: not begun, under way, or returned.
pub data Once : Type 0 where
  fresh busy finished : Once

-- `ErrGroup`, and for the theorems: whether the context is cancelled, the errors in the order in which
-- they come to `errOnce.Do`, and how many goroutines are inside of Wait.
pub record Shared : Type 0 where
  pub wg : ℕ
  pub err_once : Once
  pub err : Option ℕ
  pub cancelled : Bool
  pub log : List ℕ
  pub waiters : ℕ

-- Where a goroutine stands: one that runs a task, with what the task returned, or one that calls Wait.
pub data Pc : Type 0 where
  idle : Pc
  working : Pc  -- in `f()`
  failing : (e : ℕ) → Pc  -- before `g.errOnce.Do`
  storing : (e : ℕ) → Pc  -- in the call of `errOnce`
  cancelling : (e : ℕ) → Pc  -- in it, after `g.err = err`
  blocked : (e : ℕ) → Pc  -- in `Do`, for the end of the call
  ending : (r : Option ℕ) → Pc  -- before `g.wg.Done()`
  over : (r : Option ℕ) → Pc
  waiting : Pc  -- in `g.wg.Wait()`
  past : Pc  -- after it
  leaving : Pc  -- before `return g.err`
  returned : (r : Option ℕ) → Pc

-- One step of one goroutine; `has_cancel` says that `g.cancel` is not nil. As documented for a WaitGroup,
-- Go is called on a counter of zero only while nobody is inside of Wait.
pub data Move (has_cancel : Bool) (m : Shared) : Pc → Shared → Pc → Type 0 where
  go_task : (m.wg ≡ 0 → m.waiters ≡ 0) → Move has_cancel m idle (record m { wg = m.wg + 1 }) working
  succeed : Move has_cancel m working m (ending none)
  fail : (e : ℕ) → Move has_cancel m working m (failing e)
  do_first :
      {e : ℕ}
      → m.err_once ≡ fresh
      → Move has_cancel m
          (failing e)
          (record m { err_once = busy; log = m.log ++ (e ∷ []) })
          (storing e)
  do_busy :
      {e : ℕ}
      → m.err_once ≡ busy
      → Move has_cancel m (failing e) (record m { log = m.log ++ (e ∷ []) }) (blocked e)
  do_finished :
      {e : ℕ}
      → m.err_once ≡ finished
      → Move has_cancel m (failing e) (record m { log = m.log ++ (e ∷ []) }) (ending (some e))
  unblock : {e : ℕ} → m.err_once ≡ finished → Move has_cancel m (blocked e) m (ending (some e))
  store : {e : ℕ} → Move has_cancel m (storing e) (record m { err = some e }) (cancelling e)
  cancel :
      {e : ℕ}
      → Move has_cancel m
          (cancelling e)
          (record m { err_once = finished; cancelled = has_cancel || m.cancelled })
          (ending (some e))
  task_done : {r : Option ℕ} → Move has_cancel m (ending r) (record m { wg = m.wg - 1 }) (over r)
  wait : Move has_cancel m idle (record m { waiters = m.waiters + 1 }) waiting
  pass : m.wg ≡ 0 → Move has_cancel m waiting m past
  wait_cancel : Move has_cancel m past (record m { cancelled = has_cancel || m.cancelled }) leaving
  wait_return : Move has_cancel m leaving (record m { waiters = m.waiters - 1 }) (returned m.err)

pub record System : Type 0 where
  pub mem : Shared
  pub pc : ℕ → Pc

-- A zero group, or that of `WithContext`.
abbrev pub init : System
init = record {
  mem = record { wg = 0; err_once = fresh; err = none; cancelled = false; log = []; waiters = 0 };
  pc = λ _. idle;
}

module _ (has_cancel : Bool) (n : ℕ) where
  pub data Step (s : System) : System → Type 0 where
    turn :
        (i : ℕ) {m : Shared} {p : Pc}
        → i < n
        → Move has_cancel s.mem (s.pc i) m p
        → Step s (record { mem = m; pc = assign s.pc i p })

  pub data Reach : System → Type 0 where
    start : Reach init
    after : {s t : System} → Reach s → Step s t → Reach t
