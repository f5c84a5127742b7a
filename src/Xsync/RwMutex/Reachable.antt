-- ===== src/Xsync/RwMutex/Reachable.antt =====
-- The counters of xsync/rwmutex.go are in step with the threads in every reachable state.
use srcrd.Prelude.{ℕ, zero, suc, ◌+◌, ◌≤◌, ◌<◌, ◌≡◌, refl, arith}
use srcrd.Threads.{assign, tally, tally-assign, tally-const, weight-le-tally}
use srcrd.Xsync.Sema.{Semaphore, IsDocumented}
use srcrd.Xsync.RwMutex.{Pc, idle, max_readers, System, init, turn, Reach, start, after}
use srcrd.Xsync.RwMutex.Inv.{
  IsCensus, Holds, reads, waits, leaves, wakes, locks, announces, pends, writes, unlocks, sees,
  owes, faults, census,
}
use srcrd.Xsync.RwMutex.Moves.{Change, Move-Holds}

-- All places where a thread counts at most once.
abbrev places : Pc → ℕ
places p =
    reads p + waits p + leaves p + wakes p + locks p + announces p + pends p + writes p + unlocks p

places-le : (p : Pc) → places p ≤ 1
places-le p = ground arith

crowd-few :
    (n : ℕ) (pc : ℕ → Pc)
    → let c = census n pc in
      c.reads + c.waits + c.leaves + c.wakes + c.locks + c.announces + c.pends + c.writes
        + c.unlocks
      ≤ n
unfolding tally
crowd-few zero pc = omega arith
crowd-few (suc n) pc = omega (arith, crowd-few n pc, places-le (pc n))

sees-zero : (p : Pc) → announces p ≡ 0 → sees p ≡ 0
sees-zero p e = ground arith

owes-zero : (p : Pc) → unlocks p ≡ 0 → owes p ≡ 0
owes-zero p e = ground arith

tally-zero :
    (w v : Pc → ℕ)
    → ((p : Pc) → w p ≡ 0 → v p ≡ 0)
    → (n : ℕ) (pc : ℕ → Pc) → tally w n pc ≡ 0
    → tally v n pc ≡ 0
unfolding tally
tally-zero w v h zero pc e = refl
tally-zero w v h (suc n) pc e =
    omega (arith, h (pc n) (omega arith), tally-zero w v h n pc (omega arith))

census-IsCensus : (n : ℕ) (pc : ℕ → Pc) → IsCensus n (census n pc)
census-IsCensus n pc = record {
  few = crowd-few n pc;
  no_sees = tally-zero announces sees sees-zero n pc;
  no_owes = tally-zero unlocks owes owes-zero n pc;
}

assign-Change :
    (n i : ℕ) (pc : ℕ → Pc) (q : Pc)
    → i < n
    → Change (pc i) q (census n pc) (census n (assign pc i q))
assign-Change n i pc q h = record {
  faulty = weight-le-tally faults n i pc h;
  reads = tally-assign reads n i pc q h;
  waits = tally-assign waits n i pc q h;
  leaves = tally-assign leaves n i pc q h;
  wakes = tally-assign wakes n i pc q h;
  locks = tally-assign locks n i pc q h;
  announces = tally-assign announces n i pc q h;
  pends = tally-assign pends n i pc q h;
  writes = tally-assign writes n i pc q h;
  unlocks = tally-assign unlocks n i pc q h;
  sees = tally-assign sees n i pc q h;
  owes = tally-assign owes n i pc q h;
  faults = tally-assign faults n i pc q h;
}

none_yet : (w : Pc → ℕ) (n : ℕ) → w idle ≡ 0 → tally w n (λ _. idle) ≡ 0
none_yet w n h = tally-const w n idle h

init-Holds : (n : ℕ) → Holds n init.mem (census n init.pc)
init-Holds n =
    let crowd = census-IsCensus n init.pc in
    record {
      crowd = crowd;
      owner = omega (
        arith,
        none_yet locks n refl,
        none_yet announces n refl,
        none_yet pends n refl,
        none_yet writes n refl,
        none_yet unlocks n refl,
      );
      count = omega (
        arith,
        none_yet reads n refl,
        none_yet waits n refl,
        none_yet announces n refl,
        none_yet pends n refl,
        none_yet writes n refl,
      );
      no_faults = none_yet faults n refl;
      open_tokens = λ e. omega (arith, none_yet waits n refl, none_yet owes n refl);
      open_wait = λ e. omega (arith, none_yet leaves n refl, none_yet wakes n refl);
      tokens = omega arith;
      seen = λ e. omega (arith, none_yet announces n refl);
      announced_wait = λ e. absurd (omega (arith, none_yet announces n refl));
      pending_wait = λ e. absurd (omega (arith, none_yet pends n refl));
      writing_alone = λ e. absurd (omega (arith, none_yet writes n refl));
    }

module _ {sema : Semaphore} (doc : IsDocumented sema) {n : ℕ} (small : n < max_readers) where
  pub Reach-Holds : {s : System} → Reach sema n s → Holds n s.mem (census n s.pc)
  Reach-Holds start = init-Holds n
  Reach-Holds (after {s} r (turn i {p = q} lt mv)) =
      Move-Holds doc small (Reach-Holds r) mv (assign-Change n i s.pc q lt)
        (census-IsCensus n (assign s.pc i q))
