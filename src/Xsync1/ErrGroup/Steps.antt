-- ===== src/Xsync1/ErrGroup/Steps.antt =====
-- Every step of xsync1/errgroup.go keeps the state in step with the goroutines.
use srcrd.Prelude.{
  ℕ, ◌+◌, ◌≤◌, ◌≡◌, refl, Bool, some, List, [], ◌∷◌, ◌++◌, length, length-append, arith,
}
use srcrd.Xsync1.ErrGroup.{
  Shared, Pc, Move, go_task, succeed, fail, do_first, do_busy, do_finished, unblock, store, cancel,
  task_done, wait, pass, wait_cancel, wait_return,
}
use srcrd.Xsync1.ErrGroup.Inv
use srcrd.Xsync1.ErrGroup.Inv.{Counts, Holds, first}

-- One goroutine goes from `p` to `p'`.
pub record Change (p p' : Pc) (c d : Counts) : Type 0 where
  pub was_active : Inv.active p ≤ c.active
  pub was_inside : Inv.inside p ≤ c.inside
  pub was_storing : Inv.stores p ≤ c.stores
  pub few_storing : c.stores ≤ c.inside
  pub active : d.active + Inv.active p ≡ c.active + Inv.active p'
  pub inside : d.inside + Inv.inside p ≡ c.inside + Inv.inside p'
  pub stores : d.stores + Inv.stores p ≡ c.stores + Inv.stores p'
  pub error_of : d.error_of + Inv.error_of p ≡ c.error_of + Inv.error_of p'
  pub logged : d.logged + Inv.logged p ≡ c.logged + Inv.logged p'
  pub waits : d.waits + Inv.waits p ≡ c.waits + Inv.waits p'
  pub passed : d.passed + Inv.passed p ≡ c.passed + Inv.passed p'
  pub leaves : d.leaves + Inv.leaves p ≡ c.leaves + Inv.leaves p'
  pub settled : d.settled + Inv.settled p ≡ c.settled + Inv.settled p'
  pub blind : d.stores ≡ 0 → d.error_of ≡ 0
  pub blind_before : c.stores ≡ 0 → c.error_of ≡ 0
  pub waits_passed : c.passed ≤ c.waits

-- The log after one more error.
record Longer (l : List ℕ) (e : ℕ) : Type 0 where
  size : length (l ++ (e ∷ [])) ≡ length l + 1
  new : length l ≡ 0 → first (l ++ (e ∷ [])) ≡ some e
  same : 1 ≤ length l → first (l ++ (e ∷ [])) ≡ first l

snoc-Longer : (l : List ℕ) (e : ℕ) → Longer l e
snoc-Longer [] e = record { size = refl; new = λ h. refl; same = λ h. absurd (omega arith) }
snoc-Longer (x ∷ l) e = record {
  size = omega (arith, length-append l (e ∷ []));
  new = λ h. absurd (omega arith);
  same = λ h. refl;
}

module _ {has_cancel : Bool} {m : Shared} {c d : Counts} (h : Holds has_cancel m c) where
  pub Move-Holds :
      {p p' : Pc} {m' : Shared}
      → Move has_cancel m p m' p'
      → Change p p' c d
      → Holds has_cancel m' d
  Move-Holds (go_task g) e = ground arith
  Move-Holds succeed e = ground arith
  Move-Holds (fail x) e = ground arith
  Move-Holds (do_first {e = x} g) e =
      let l = snoc-Longer m.log x in ground (arith, h.idle_once g, l.size, l.new, h.stored)
  Move-Holds (do_busy {e = x} g) e =
      let l = snoc-Longer m.log x in
      ground (arith, h.busy_once g, l.size, l.same, h.stored, h.before_store)
  Move-Holds (do_finished {e = x} g) e =
      let l = snoc-Longer m.log x in
      ground (arith, h.finished_once g, l.size, l.same, h.stored, h.before_store)
  Move-Holds (unblock g) e = ground arith
  Move-Holds (store {e = x}) e =
      ground (arith, h.before_store, h.idle_once, h.busy_once, h.finished_once)
  Move-Holds (cancel {e = x}) e = ground (arith, h.idle_once, h.busy_once, h.finished_once)
  Move-Holds task_done e = ground arith
  Move-Holds wait e = ground arith
  Move-Holds (pass z) e = ground arith
  Move-Holds wait_cancel e = ground arith
  Move-Holds wait_return e = ground arith
