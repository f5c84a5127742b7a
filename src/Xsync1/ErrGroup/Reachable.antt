-- ===== src/Xsync1/ErrGroup/Reachable.antt =====
-- The state of xsync1/errgroup.go is in step with the goroutines in every reachable state.
use srcrd.Prelude.{ℕ, ◌≤◌, ◌<◌, ◌≡◌, refl, Bool, arith}
use srcrd.Threads.{
  assign, tally, tally-assign, tally-blind, tally-const, tally_mono, weight-le-tally,
}
use srcrd.Xsync1.ErrGroup.{Pc, idle, System, init, Step, turn, Reach, start, after}
use srcrd.Xsync1.ErrGroup.Inv.{
  Holds, active, inside, stores, error_of, logged, waits, passed, leaves, settled, census,
}
use srcrd.Xsync1.ErrGroup.Steps.{Change, Move-Holds}

stores-le : (p : Pc) → stores p ≤ inside p
stores-le p = ground arith

passed-le : (p : Pc) → passed p ≤ waits p
passed-le p = ground arith

error_of-zero : (p : Pc) → stores p ≡ 0 → error_of p ≡ 0
error_of-zero p e = ground arith

assign-Change :
    (n i : ℕ) (pc : ℕ → Pc) (q : Pc)
    → i < n
    → Change (pc i) q (census n pc) (census n (assign pc i q))
assign-Change n i pc q h = record {
  was_active = weight-le-tally active n i pc h;
  was_inside = weight-le-tally inside n i pc h;
  was_storing = weight-le-tally stores n i pc h;
  few_storing = tally_mono stores inside stores-le n pc;
  active = tally-assign active n i pc q h;
  inside = tally-assign inside n i pc q h;
  stores = tally-assign stores n i pc q h;
  error_of = tally-assign error_of n i pc q h;
  logged = tally-assign logged n i pc q h;
  waits = tally-assign waits n i pc q h;
  passed = tally-assign passed n i pc q h;
  leaves = tally-assign leaves n i pc q h;
  settled = tally-assign settled n i pc q h;
  blind = tally-blind error_of stores error_of-zero n (assign pc i q);
  blind_before = tally-blind error_of stores error_of-zero n pc;
  waits_passed = tally_mono passed waits passed-le n pc;
}

init-Holds : (has_cancel : Bool) (n : ℕ) → Holds has_cancel init.mem (census n init.pc)
init-Holds has_cancel n =
    let none_of : (w : Pc → ℕ) → w idle ≡ 0 → tally w n init.pc ≡ 0 =
      λ w h. tally-const w n idle h in
    ground (
      arith,
      none_of active refl,
      none_of inside refl,
      none_of stores refl,
      none_of logged refl,
      none_of waits refl,
      none_of passed refl,
      none_of leaves refl,
      none_of settled refl,
    )

module _ {has_cancel : Bool} {n : ℕ} where
  pub Step-Holds :
      {s t : System}
      → Holds has_cancel s.mem (census n s.pc)
      → Step has_cancel n s t
      → Holds has_cancel t.mem (census n t.pc)
  Step-Holds {s} h (turn i {p = q} lt mv) = Move-Holds h mv (assign-Change n i s.pc q lt)

  pub Reach-Holds : {s : System} → Reach has_cancel n s → Holds has_cancel s.mem (census n s.pc)
  Reach-Holds start = init-Holds has_cancel n
  Reach-Holds (after r st) = Step-Holds (Reach-Holds r) st
