-- ===== src/Xsync1/SingleFlight/Shared.antt =====
-- What callers of `Do` of xsync1/singleflight.go can rely on.
use srcrd.Prelude.{ℕ, ◌≤◌, ◌≡◌, ap, ◌⊎◌, inl, inr, some, Option-cases, arith}
use srcrd.Xsync1.SingleFlight.{Call, Pc, waiting, running, stored, System, Reach}
use srcrd.Xsync1.SingleFlight.Inv.{Phase, in_fn, in_done, over, key_of}
use srcrd.Xsync1.SingleFlight.Steps.{Reach-IsValid}

progress :
    (pc : ℕ → Pc) (k : ℕ) (c : Call)
    → Phase pc k c
    → (c.wg ≡ 0) ⊎ ((pc c.leader ≡ running k) ⊎ (pc c.leader ≡ stored k))
progress pc k c (in_fn w v e) = inr (inl e)
progress pc k c (in_done x w v e) = inr (inr e)
progress pc k c (over x w v) = inl w

module _ {s : System} (r : Reach s) where
  -- The function of a key is called at most once in a run, also after its call has returned.
  pub ran_once : (k : ℕ) → s.runs k ≤ 1
  ran_once k = elim (Option-cases (s.m k)) [
    | inl e ↦ omega (arith, (Reach-IsValid r).unmade k e)
    | inr (c, e) ↦ omega (arith, (Reach-IsValid r).once k c e)
  ]

  -- A caller that waits can return, or the caller that made the call is in the function, or is about to
  -- end the wait.
  pub waiter_waits_for :
      (i k : ℕ)
      → s.pc i ≡ waiting k
      → (c : Call) × (s.m k ≡ some c)
        × ((c.wg ≡ 0) ⊎ ((s.pc c.leader ≡ running k) ⊎ (s.pc c.leader ≡ stored k)))
  waiter_waits_for i k e =
      let v = Reach-IsValid r in
      let (c, f) = v.made i k (ap key_of e) in (c, f, progress s.pc k c (v.phase k c f))
