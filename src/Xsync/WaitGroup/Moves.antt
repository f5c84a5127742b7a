-- ===== src/Xsync/WaitGroup/Moves.antt =====
-- Every access of xsync/waitgroup.go keeps the state in step with the threads.
use srcrd.Prelude.{ℕ, ◌+◌, ◌-◌, ◌*◌, ◌^◌, ◌≤◌, ◌<◌, ◌≡◌, arith}
use srcrd.Xsync.Sema.{Semaphore, IsDocumented}
use srcrd.Xsync.WaitGroup.{
  Shared, Pc, add_delta, delta_of, MayAdd, Move, add_negative, add_misuse, add_returns, add_wakes,
  check_same, check_other, release_one, release_end, wait_zero, wait_load, swap_done, swap_lost,
  acquire, wake_returns, wake_reused,
}
use srcrd.Xsync.WaitGroup.Inv
use srcrd.Xsync.WaitGroup.Inv.{Counts, Holds}

-- One thread goes from `p` to `p'`.
pub record Change (n : ℕ) (p p' : Pc) (c d : Counts) : Type 0 where
  pub owed : Inv.owes p ≤ c.owes
  pub faulty : Inv.faults p ≤ c.faults
  pub owes : d.owes + Inv.owes p ≡ c.owes + Inv.owes p'
  pub checks : d.checks + Inv.checks p ≡ c.checks + Inv.checks p'
  pub sees : d.sees + Inv.sees p ≡ c.sees + Inv.sees p'
  pub wakes : d.wakes + Inv.wakes p ≡ c.wakes + Inv.wakes p'
  pub waits : d.waits + Inv.waits p ≡ c.waits + Inv.waits p'
  pub leaves : d.leaves + Inv.leaves p ≡ c.leaves + Inv.leaves p'
  pub dones : d.dones + Inv.dones p ≡ c.dones + Inv.dones p'
  pub faults : d.faults + Inv.faults p ≡ c.faults + Inv.faults p'
  pub few : d.waits ≤ n
  pub blind : d.checks ≡ 0 → d.sees ≡ 0

-- The state after an Add that its caller may make.
added :
    (a q u v : ℕ)
    → a < 2 ^ 31
    → q < 2 ^ 32
    → u ≤ a
    → a + v < 2 ^ 31 + u
    → add_delta (a * 2 ^ 32 + q) (delta_of u v) ≡ (a + v - u) * 2 ^ 32 + q
added a q u v h k l f = omega arith

module _ {n : ℕ} (fewer : n < 2 ^ 31) {m : Shared} {c : Counts} (h : Holds n m c) where
  -- An Add that its caller may make: the new state.
  add_state :
      {u v : ℕ}
      → MayAdd m u v
      → u ≤ c.owes
      → add_delta m.state (delta_of u v) ≡ (c.owes + v - u) * 2 ^ 32 + h.q
  add_state {u} {v} g l = rw h.at.state (
      added c.owes h.q u v h.at.small (omega (arith, h.at.balance, h.at.few)) l
        (omega (arith, g.fits, h.at.state, h.at.balance, h.at.few)))

module _ {sema : Semaphore} (doc : IsDocumented sema) {n : ℕ} (fewer : n < 2 ^ 31) {m : Shared}
    {c d : Counts} (h : Holds n m c) where
  pub Move-Holds :
      {p p' : Pc} {m' : Shared} → Move sema m p m' p' → Change n p p' c d → Holds n m' d
  Move-Holds (add_negative g o) e = let a = add_state fewer h g e.owed in absurd (ground arith)
  Move-Holds (add_misuse g o) e = let a = add_state fewer h g e.owed in absurd (ground arith)
  Move-Holds (add_returns g o) e =
      let a = add_state fewer h g e.owed in record { q = h.q; at = ground (arith) }
  Move-Holds (add_wakes g o) e =
      let a = add_state fewer h g e.owed in record { q = h.q; at = ground (arith) }
  Move-Holds (check_same g) e = record { q = 0; at = ground (arith) }
  Move-Holds (check_other g) e = absurd (ground arith)
  Move-Holds (release_one g) e = record {
    q = h.q;
    at = ground (arith, doc.release_suc m.sema_count);
  }
  Move-Holds (release_end g) e = record { q = h.q; at = ground (arith) }
  Move-Holds (wait_zero g z) e = record { q = h.q; at = ground (arith) }
  Move-Holds (wait_load g z) e = record { q = h.q; at = ground (arith) }
  Move-Holds (swap_done g) e = record { q = h.q + 1; at = ground (arith) }
  Move-Holds (swap_lost g) e = record { q = h.q; at = ground (arith) }
  Move-Holds (acquire {t} g) e = record {
    q = h.q;
    at = ground (arith, doc.acquire_some m.sema_count t g);
  }
  Move-Holds (wake_returns g) e = record { q = h.q; at = ground (arith) }
  Move-Holds (wake_reused g) e = absurd (ground arith)
