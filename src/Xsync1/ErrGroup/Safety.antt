-- ===== src/Xsync1/ErrGroup/Safety.antt =====
-- What the group of xsync1/errgroup.go guarantees to its users, in every reachable state.
use srcrd.Prelude.{
  ℕ, ◌≤◌, ◌<◌, ◌≡◌, ◌≢◌, refl, sym, ◌∙◌, Bool, Option, none, some, arith, length, List,
}
use srcrd.Threads.{tally, weight-le-tally, tally-eq-zero, tally_mono}
use srcrd.Xsync1.ErrGroup.{
  Once, finished, fresh, busy, Shared, Pc, blocked, ending, leaving, waiting, past, returned,
  System, Move, unblock, pass, wait_return, Reach,
}
use srcrd.Xsync1.ErrGroup.Inv.{
  Holds, active, inside, stores, logged, passed, leaves, settled, first, census,
}
use srcrd.Xsync1.ErrGroup.Reachable.{Reach-Holds}

-- Only the return of Wait returns.
record LeavesWith (m : Shared) (p : Pc) (r : Option ℕ) : Type 0 where
  from : p ≡ leaving
  gives : r ≡ m.err

Move-LeavesWith :
    {has_cancel : Bool} {m m' : Shared} {p : Pc} {r : Option ℕ}
    → Move has_cancel m p m' (returned r)
    → LeavesWith m p r
Move-LeavesWith wait_return = record { from = refl; gives = refl }

stores-le : (p : Pc) → stores p ≤ active p
stores-le p = ground arith

stores-le-inside : (p : Pc) → stores p ≤ inside p
stores-le-inside p = ground arith

first-none : (l : List ℕ) → first l ≡ none → length l ≡ 0
first-none l e = ground arith

Once-cases : (o : Once) → o ≢ fresh → o ≢ busy → o ≡ finished
Once-cases fresh f b = absurd (f refl)
Once-cases busy f b = absurd (b refl)
Once-cases finished f b = refl

-- What Wait returns as `r` with, and what then holds of the goroutines.
pub record Gave (has_cancel : Bool) (n : ℕ) (s : System) (r : Option ℕ) : Type 0 where
  pub first_error : r ≡ first s.mem.log
  pub all_over : (j : ℕ) → j < n → active (s.pc j) ≡ 0
  pub all_logged : length s.mem.log ≡ tally logged n s.pc
  pub cancelled : s.mem.cancelled ≡ has_cancel

module _ {has_cancel : Bool} {n : ℕ} {s : System} (r : Reach has_cancel n s) where
  holds : Holds has_cancel s.mem (census n s.pc)
  holds = Reach-Holds r

  in_tally : (w : Pc → ℕ) (i : ℕ) {p : Pc} → i < n → s.pc i ≡ p → w p ≤ tally w n s.pc
  in_tally w i lt e = rw e at (weight-le-tally w n i s.pc lt)

  -- In a reachable state, a return of Wait gives the first of the errors that came to `errOnce.Do`, or nil
  -- if there is none; as many errors came there as tasks have failed; no task is running; and the context
  -- is cancelled if the group has one.
  pub wait-Gave :
      (i : ℕ) {m : Shared} {v : Option ℕ}
      → i < n
      → Move has_cancel s.mem (s.pc i) m (returned v)
      → Gave has_cancel n s v
  wait-Gave i {v} lt mv =
      let w = Move-LeavesWith mv in
      let p : 1 ≤ tally passed n s.pc = in_tally passed i lt w.from in
      let over : tally active n s.pc ≡ 0 =
        omega (arith, holds.counter, holds.quiet (omega (arith, p))) in
      let l : 1 ≤ tally leaves n s.pc = in_tally leaves i lt w.from in
      record {
        first_error =
            w.gives ∙ holds.stored (omega (arith, over, tally_mono stores active stores-le n s.pc));
        all_over = λ j lj. omega (arith, over, weight-le-tally active n j s.pc lj);
        all_logged = holds.all_logged;
        cancelled = holds.left (omega (arith, l));
      }

  -- In a reachable state, once a task that failed has left `errOnce.Do`, the group has the first of the
  -- errors, and the context is cancelled if the group has one.
  pub failed_cancels :
      (i : ℕ) {e : ℕ}
      → i < n
      → s.pc i ≡ ending (some e)
      → (s.mem.cancelled ≡ has_cancel) × (s.mem.err ≡ first s.mem.log) × (s.mem.err ≢ none)
  failed_cancels i {e} lt eq =
      let o : s.mem.err_once ≡ finished =
        Once-cases s.mem.err_once
          (λ f. omega (arith, in_tally settled i lt eq, (holds.idle_once f).2))
          (λ b. omega (arith, in_tally settled i lt eq, (holds.busy_once b).1)) in
      let z : tally stores n s.pc ≡ 0 =
        omega
          (arith, (holds.finished_once o).0, tally_mono stores inside stores-le-inside n s.pc) in
      (
        (holds.finished_once o).1,
        holds.stored z,
        λ f.
            omega
              (arith, (holds.finished_once o).2, first-none s.mem.log (sym (holds.stored z) ∙ f)),
      )

  -- In a reachable state, a task that waits for the end of the call of `errOnce` can go on, once nobody is
  -- in that call.
  pub blocked_can_go :
      (i : ℕ) {e : ℕ}
      → i < n
      → s.pc i ≡ blocked e
      → ((j : ℕ) → j < n → inside (s.pc j) ≡ 0)
      → Move has_cancel s.mem (s.pc i) s.mem (ending (some e))
  blocked_can_go i lt eq h =
      let c = tally-eq-zero inside n s.pc h in
      let l = in_tally logged i lt eq in
      rw eq (
        unblock (
          Once-cases s.mem.err_once (λ f. omega (arith, l, holds.all_logged, (holds.idle_once f).1))
            (λ b. omega (arith, c, (holds.busy_once b).0))))

  -- In a reachable state, a Wait can go on once no task runs.
  pub wait_passes :
      (i : ℕ)
      → i < n
      → s.pc i ≡ waiting
      → ((j : ℕ) → j < n → active (s.pc j) ≡ 0)
      → Move has_cancel s.mem (s.pc i) s.mem past
  wait_passes i lt eq h = rw eq (pass (holds.counter ∙ tally-eq-zero active n s.pc h))
