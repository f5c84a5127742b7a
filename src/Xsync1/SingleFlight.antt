-- ===== src/Xsync1/SingleFlight.antt =====
-- xsync1/singleflight.go: callers of `Do` on one group, which interleave between the critical section, the
-- call of the function, the end of the WaitGroup, and the return. Keys and results are numbers: the code
-- only compares keys and passes results on; a result stands for `val` and `err`.
pub mod Inv
pub mod Steps
pub mod Shared
mod Tests
use srcrd.Prelude.{ℕ, ◌+◌, ◌-◌, ◌≡◌, Bool, true, Option, none, some, ltb}
use srcrd.Threads.{assign}

-- `call`: `val` is none until it is written, `wg` is the counter of the WaitGroup, and `leader` is the
-- caller that made it. The table's entry is the only call of its key, so that a pointer to a call is the key.
pub record Call : Type 0 where
  pub val : Option ℕ
  pub wg : ℕ
  pub dups : ℕ
  pub leader : ℕ

-- Where a caller stands in `Do`, with its key.
pub data Pc : Type 0 where
  outside : Pc
  waiting : (k : ℕ) → Pc  -- in `c.wg.Wait()`
  running : (k : ℕ) → Pc  -- in `fn()`
  stored : (k : ℕ) → Pc  -- before `c.wg.Done()`
  finished : (k : ℕ) → Pc  -- before the last return
  returned : (k : ℕ) (v : Option ℕ) (shared : Bool) → Pc

-- The group, its callers, and how often the function of a key was called.
pub record System : Type 0 where
  pub m : ℕ → Option Call
  pub pc : ℕ → Pc
  pub runs : ℕ → ℕ

abbrev pub init : System
init = record { m = λ _. none; pc = λ _. outside; runs = λ _. 0 }

-- One step of the caller `i`.
pub data Step (s : System) : System → Type 0 where
  join_call :
      (i k : ℕ) (c : Call)
      → s.pc i ≡ outside
      → s.m k ≡ some c
      → Step s (record s {
        m = assign s.m k (some (record c { dups = c.dups + 1 }));
        pc = assign s.pc i (waiting k);
      })
  make_call :
      (i k : ℕ)
      → s.pc i ≡ outside
      → s.m k ≡ none
      → Step s (record {
        m = assign s.m k (some (record { val = none; wg = 1; dups = 0; leader = i }));
        pc = assign s.pc i (running k);
        runs = assign s.runs k (s.runs k + 1);
      })
  fn_returns :
      (i k : ℕ) (c : Call) (v : ℕ)
      → s.pc i ≡ running k
      → s.m k ≡ some c
      → Step s (record s {
        m = assign s.m k (some (record c { val = some v }));
        pc = assign s.pc i (stored k);
      })
  call_done :
      (i k : ℕ) (c : Call)
      → s.pc i ≡ stored k
      → s.m k ≡ some c
      → Step s (record s {
        m = assign s.m k (some (record c { wg = c.wg - 1 }));
        pc = assign s.pc i (finished k);
      })
  return_own :
      (i k : ℕ) (c : Call)
      → s.pc i ≡ finished k
      → s.m k ≡ some c
      → Step s (record s { pc = assign s.pc i (returned k c.val (ltb 0 c.dups)) })
  return_shared :
      (i k : ℕ) (c : Call)
      → s.pc i ≡ waiting k
      → s.m k ≡ some c
      → c.wg ≡ 0
      → Step s (record s { pc = assign s.pc i (returned k c.val true) })
  leave :
      (i k : ℕ) (v : Option ℕ) (b : Bool)
      → s.pc i ≡ returned k v b
      → Step s (record s { pc = assign s.pc i outside })

pub data Reach : System → Type 0 where
  start : Reach init
  after : {s t : System} → Reach s → Step s t → Reach t
