-- ===== src/Xsync/WaitGroup/Reachable.antt =====
-- The state of xsync/waitgroup.go is in step with the threads in every reachable state.
use srcrd.Prelude.{ℕ, zero, suc, ◌^◌, ◌≤◌, ◌<◌, ◌≡◌, refl, arith}
use srcrd.Threads.{assign, tally, tally-assign, tally-blind, tally-eq-zero, weight-le-tally}
use srcrd.Xsync.Sema.{Semaphore, IsDocumented}
use srcrd.Xsync.WaitGroup.{Pc, outside, System, init, turn, Reach, start, after}
use srcrd.Xsync.WaitGroup.Inv.{
  Holds, owes, checks, sees, wakes, waits, leaves, dones, faults, census,
}
use srcrd.Xsync.WaitGroup.Moves.{Change, Move-Holds}

waits-le : (p : Pc) → waits p ≤ 1
waits-le p = ground arith

tally-waits-le : (n : ℕ) (pc : ℕ → Pc) → tally waits n pc ≤ n
unfolding tally
tally-waits-le zero pc = omega arith
tally-waits-le (suc n) pc = omega (arith, waits-le (pc n), tally-waits-le n pc)

sees-zero : (p : Pc) → checks p ≡ 0 → sees p ≡ 0
sees-zero p e = ground arith

assign-Change :
    (n i : ℕ) (pc : ℕ → Pc) (q : Pc)
    → i < n
    → Change n (pc i) q (census n pc) (census n (assign pc i q))
assign-Change n i pc q h = record {
  owed = weight-le-tally owes n i pc h;
  faulty = weight-le-tally faults n i pc h;
  owes = tally-assign owes n i pc q h;
  checks = tally-assign checks n i pc q h;
  sees = tally-assign sees n i pc q h;
  wakes = tally-assign wakes n i pc q h;
  waits = tally-assign waits n i pc q h;
  leaves = tally-assign leaves n i pc q h;
  dones = tally-assign dones n i pc q h;
  faults = tally-assign faults n i pc q h;
  few = tally-waits-le n (assign pc i q);
  blind = tally-blind sees checks sees-zero n (assign pc i q);
}

tally-owes :
    (n : ℕ) (units : ℕ → ℕ) → tally owes n (λ i. outside (units i)) ≡ tally (λ u. u) n units
unfolding tally
tally-owes zero units = refl
tally-owes (suc n) units = omega (arith, tally-owes n units)

none_yet :
    (w : Pc → ℕ) (n : ℕ) (units : ℕ → ℕ)
    → ((u : ℕ) → w (outside u) ≡ 0)
    → tally w n (λ i. outside (units i)) ≡ 0
none_yet w n units h = tally-eq-zero w n (λ i. outside (units i)) (λ i l. h (units i))

init-Holds :
    (n : ℕ) (units : ℕ → ℕ)
    → tally (λ u. u) n units < 2 ^ 31
    → Holds n (init n units).mem (census n (init n units).pc)
init-Holds n units l =
    let u = tally-owes n units in
    let w = none_yet waits n units (λ u. refl) in
    let k = none_yet checks n units (λ u. refl) in
    let d = none_yet dones n units (λ u. refl) in
    let r = none_yet wakes n units (λ u. refl) in
    record {
      q = 0;
      at = record {
        state = omega (arith, u);
        small = omega (arith, u, l);
        few = tally-waits-le n (init n units).pc;
        balance = omega (arith, w, r);
        open_quiet = λ e. omega (arith, k, d, r);
        one_check = omega (arith, k);
        no_check = tally-blind sees checks sees-zero n (init n units).pc;
        check = λ e. absurd (omega (arith, k));
        closed = λ e f. refl;
        leaving = omega (arith, none_yet leaves n units (λ u. refl));
        no_faults = none_yet faults n units (λ u. refl);
      };
    }

module _ {sema : Semaphore} (doc : IsDocumented sema) {n : ℕ} (fewer : n < 2 ^ 31) {units : ℕ → ℕ}
    (fits : tally (λ u. u) n units < 2 ^ 31) where
  pub Reach-Holds : {s : System} → Reach sema n units s → Holds n s.mem (census n s.pc)
  Reach-Holds start = init-Holds n units fits
  Reach-Holds (after {s} r (turn i {p = q} lt mv)) =
      Move-Holds doc fewer (Reach-Holds r) mv (assign-Change n i s.pc q lt)
