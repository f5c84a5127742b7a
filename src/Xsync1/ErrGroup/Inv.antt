-- ===== src/Xsync1/ErrGroup/Inv.antt =====
-- How the state of xsync1/errgroup.go stands to the goroutines.
use srcrd.Prelude.{ℕ, ◌≤◌, ◌<◌, ◌≡◌, Bool, true, Option, none, some, List, [], ◌∷◌, length}
use srcrd.Threads.{tally}
use srcrd.Xsync1.ErrGroup.{
  fresh, busy, finished, Shared, Pc, working, failing, storing, cancelling, blocked, ending, over,
  waiting, past, leaving,
}

-- A task that runs.
abbrev pub active : Pc → ℕ
active working = 1
active (failing e) = 1
active (storing e) = 1
active (cancelling e) = 1
active (blocked e) = 1
active (ending r) = 1
active _ = 0

-- The call of `errOnce`, and its part before the error is stored, with the error.
abbrev pub inside : Pc → ℕ
inside (storing e) = 1
inside (cancelling e) = 1
inside _ = 0

abbrev pub stores : Pc → ℕ
stores (storing e) = 1
stores _ = 0

abbrev pub error_of : Pc → ℕ
error_of (storing e) = e
error_of _ = 0

-- An error that has come to `errOnce.Do`.
abbrev pub logged : Pc → ℕ
logged (storing e) = 1
logged (cancelling e) = 1
logged (blocked e) = 1
logged (ending (some e)) = 1
logged (over (some e)) = 1
logged _ = 0

-- Inside of Wait, and in it after the wait.
abbrev pub waits : Pc → ℕ
waits waiting = 1
waits past = 1
waits leaving = 1
waits _ = 0

abbrev pub passed : Pc → ℕ
passed past = 1
passed leaving = 1
passed _ = 0

-- After the call of `cancel` in Wait, and after a `Do`.
abbrev pub leaves : Pc → ℕ
leaves leaving = 1
leaves _ = 0

abbrev pub settled : Pc → ℕ
settled (ending (some e)) = 1
settled (over (some e)) = 1
settled _ = 0

pub record Counts : Type 0 where
  pub active : ℕ
  pub inside : ℕ
  pub stores : ℕ
  pub error_of : ℕ
  pub logged : ℕ
  pub waits : ℕ
  pub passed : ℕ
  pub leaves : ℕ
  pub settled : ℕ

-- The first of the errors.
abbrev pub first : List ℕ → Option ℕ
first [] = none
first (e ∷ es) = some e

-- What holds between any two steps.
pub record Holds (has_cancel : Bool) (m : Shared) (c : Counts) : Type 0 where
  pub counter : m.wg ≡ c.active
  pub waiters : m.waiters ≡ c.waits
  pub quiet : 0 < c.passed → m.wg ≡ 0
  pub all_logged : length m.log ≡ c.logged
  pub idle_once : m.err_once ≡ fresh → (c.inside ≡ 0) × (length m.log ≡ 0) × (c.settled ≡ 0)
  pub busy_once : m.err_once ≡ busy → (c.inside ≡ 1) × (c.settled ≡ 0) × (1 ≤ length m.log)
  pub finished_once :
      m.err_once ≡ finished → (c.inside ≡ 0) × (m.cancelled ≡ has_cancel) × (1 ≤ length m.log)
  pub stored : c.stores ≡ 0 → m.err ≡ first m.log
  pub before_store : 0 < c.stores → (first m.log ≡ some c.error_of) × (m.err ≡ none)
  pub left : 0 < c.leaves → m.cancelled ≡ has_cancel
  pub never : m.cancelled ≡ true → has_cancel ≡ true

module _ (n : ℕ) (pc : ℕ → Pc) where
  abbrev pub census : Counts
  census = record {
    active = tally active n pc;
    inside = tally inside n pc;
    stores = tally stores n pc;
    error_of = tally error_of n pc;
    logged = tally logged n pc;
    waits = tally waits n pc;
    passed = tally passed n pc;
    leaves = tally leaves n pc;
    settled = tally settled n pc;
  }
