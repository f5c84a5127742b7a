-- ===== src/Netpoll/Wait/Steps.antt =====
-- Every access of netpoll/netpoll3.go keeps what Inv says.
use mathlib.Core.Path.{subst}
use native.Mathlib.Decide.{ℕ_discrete}
use srcrd.Prelude.{ℕ, suc, ◌+◌, ◌≤◌, ◌<◌, ◌≡◌, ◌≢◌, refl, sym, ◌∙◌, some, none, arith, Option}
use srcrd.Threads.{assign, tally-assign, tally-const, weight-le-tally}
use srcrd.Netpoll.Wait.{
  PollDesc, check_err, IsDocumented, new_value, Waiter, outside, blocking, loaded, armed, parking,
  parked, resumed, failed, double_wait, corrupted, Unblocker, idle, starting, comparing, holding,
  System, Step, wait_starts, load, take_ready, throw_double, arm, arm_lost, recheck_parks,
  recheck_fails, park, park_refused, exchange_ready, exchange_false, throw_corrupted, return_error,
  retry, store_then_unblock, store_no_error, nothing_to_do, compare, swap_lost, swap_nobody,
  swap_goroutine, make_runnable, Reach, start, after,
}
use srcrd.Netpoll.Wait.Inv
use srcrd.Netpoll.Wait.Inv.{Stands, Counts, Holds, census}

-- One thread goes from `p` to `q`.
record Change (p q : Unblocker) (c d : Counts) : Type 0 where
  holding : Inv.holds p ≤ c.holds
  stales : Inv.stale p ≤ c.stale
  holds : d.holds + Inv.holds p ≡ c.holds + Inv.holds q
  active : d.active + Inv.active p ≡ c.active + Inv.active q
  stale : d.stale + Inv.stale p ≡ c.stale + Inv.stale q

assign-Change :
    {n i : ℕ} (f : ℕ → Unblocker) (p q : Unblocker)
    → i < n
    → f i ≡ p
    → Change p q (census n f) (census n (assign f i q))
assign-Change {n} {i} f p q h e =
    subst (λ p. Change p q (census n f) (census n (assign f i q))) e
      (record {
        holding = weight-le-tally Inv.holds n i f h;
        stales = weight-le-tally Inv.stale n i f h;
        holds = tally-assign Inv.holds n i f q h;
        active = tally-assign Inv.active n i f q h;
        stale = tally-assign Inv.stale n i f q h;
      })

-- What holds at the place where the goroutine is known to be.
pub at :
    {g mode : ℕ} {s : System} {c : Counts} (w : Waiter)
    → Holds g mode s c
    → s.waiter ≡ w
    → Stands g w s.gpp c.holds c.active (check_err s.pd mode)
at {g} {mode} {s} {c} w h e =
    subst (λ w. Stands g w s.gpp c.holds c.active (check_err s.pd mode)) e h.stands

-- The semaphore changes by a thread, wherever the goroutine is.
swapped-Stands :
    (g : ℕ) (w : Waiter) (gpp v h h' a a' err : ℕ)
    → 2 < g
    → v ≤ 1
    → Stands g w gpp h a err
    → gpp ≢ 1
    → (gpp ≤ 2 → h' ≡ h)
    → (2 < gpp → h' ≡ suc h)
    → Stands g w v h' a' err
swapped-Stands g outside gpp v h h' a a' err b k s r o z = ground arith
swapped-Stands g blocking gpp v h h' a a' err b k s r o z = ground arith
swapped-Stands g (loaded old) gpp v h h' a a' err b k s r o z = ground arith
swapped-Stands g armed gpp v h h' a a' err b k s r o z = ground arith
swapped-Stands g parking gpp v h h' a a' err b k s r o z = ground arith
swapped-Stands g parked gpp v h h' a a' err b k s r o z = ground arith
swapped-Stands g resumed gpp v h h' a a' err b k s r o z = ground arith
swapped-Stands g failed gpp v h h' a a' err b k s r o z = ground arith
swapped-Stands g double_wait gpp v h h' a a' err b k s r o z = absurd s
swapped-Stands g corrupted gpp v h h' a a' err b k s r o z = absurd s

-- A thread that goes on, or stops where nothing is to do.
moved-Stands :
    (g : ℕ) (w : Waiter) (gpp h h' a a' err err' : ℕ)
    → 2 < g
    → Stands g w gpp h a err
    → h' ≡ h
    → (err' ≢ 0 → 1 ≤ a → 2 ≤ gpp → 1 ≤ a')
    → (err' ≢ 0 → err ≡ 0 → 1 ≤ a')
    → Stands g w gpp h' a' err'
moved-Stands g outside gpp h h' a a' err err' b s e r o = ground arith
moved-Stands g blocking gpp h h' a a' err err' b s e r o = ground arith
moved-Stands g (loaded old) gpp h h' a a' err err' b s e r o = ground arith
moved-Stands g armed gpp h h' a a' err err' b s e r o = ground arith
moved-Stands g parking gpp h h' a a' err err' b s e r o = ground arith
moved-Stands g parked gpp h h' a a' err err' b s e r o = ground arith
moved-Stands g resumed gpp h h' a a' err err' b s e r o = ground arith
moved-Stands g failed gpp h h' a a' err err' b s e r o = ground arith
moved-Stands g double_wait gpp h h' a a' err err' b s e r o = absurd s
moved-Stands g corrupted gpp h h' a a' err err' b s e r o = absurd s

-- What a commit does: the semaphore is at pdWait exactly if it parks.
commit_some :
    {commit : ℕ → ℕ → Option ℕ} (doc : IsDocumented commit) (g s v : ℕ)
    → commit g s ≡ some v
    → (s ≡ 2) × (v ≡ g)
commit_some doc g s v e = elim (ℕ_discrete s 2) [
  | yes z ↦ let p = doc.parks g in (z, ground (arith, z, p, e))
  | no z ↦ let p = doc.refuses g s z in absurd (ground (arith, p, e))
]

commit_none :
    {commit : ℕ → ℕ → Option ℕ} (doc : IsDocumented commit) (g s : ℕ) → commit g s ≡ none → s ≢ 2
commit_none doc g s e z = let p = doc.parks g in ground (arith, z, p, e)

module _ {commit : ℕ → ℕ → Option ℕ} (doc : IsDocumented commit) {g : ℕ} (big : 2 < g)
    {mode n : ℕ} where
  pub Step-Holds :
      {s t : System}
      → Step commit g mode n s t
      → Holds g mode s (census n s.unblocker)
      → Holds g mode t (census n t.unblocker)
  Step-Holds {s} (wait_starts e k) h =
      let p = at outside h e in record { stands = p; kept = h.kept; fresh = h.fresh }
  Step-Holds {s} (load e) h =
      let p = at blocking h e in record { stands = ground arith; kept = h.kept; fresh = h.fresh }
  Step-Holds {s} (take_ready e) h =
      let p = at (loaded 1) h e in
      record { stands = ground arith; kept = ground (arith, h.kept); fresh = h.fresh }
  Step-Holds {s} (throw_double {old} e k z) h = let p = at (loaded old) h e in absurd (ground arith)
  Step-Holds {s} (arm e k) h =
      let p = at (loaded 0) h e in
      record { stands = ground arith; kept = ground (arith, h.kept); fresh = h.fresh }
  Step-Holds {s} (arm_lost e k) h =
      let p = at (loaded 0) h e in record { stands = ground arith; kept = h.kept; fresh = h.fresh }
  Step-Holds {s} (recheck_parks e k) h =
      let p = at armed h e in record { stands = ground arith; kept = h.kept; fresh = h.fresh }
  Step-Holds {s} (recheck_fails e k) h =
      let p = at armed h e in record { stands = p; kept = h.kept; fresh = h.fresh }
  Step-Holds {s} (park {v} e k) h =
      let p = at parking h e in
      let w = commit_some doc g s.gpp v k in
      record { stands = ground arith; kept = ground (arith, h.kept, w); fresh = h.fresh }
  Step-Holds {s} (park_refused e k) h =
      let p = at parking h e in
      let w = commit_none doc g s.gpp k in
      record { stands = ground (arith, w); kept = h.kept; fresh = h.fresh }
  Step-Holds {s} (exchange_ready e k) h =
      let p = at resumed h e in
      record { stands = ground arith; kept = ground (arith, h.kept); fresh = h.fresh }
  Step-Holds {s} (exchange_false e k l) h =
      let p = at resumed h e in
      record { stands = ground arith; kept = ground (arith, h.kept); fresh = h.fresh }
  Step-Holds {s} (throw_corrupted e k) h = let p = at resumed h e in absurd (ground arith)
  Step-Holds {s} (return_error e k) h =
      let p = at failed h e in record { stands = p; kept = h.kept; fresh = h.fresh }
  Step-Holds {s} (retry e k) h =
      let p = at failed h e in record { stands = p; kept = h.kept; fresh = h.fresh }
  Step-Holds {s} (store_then_unblock {i} pd b lt e) h =
      let c = assign-Change s.unblocker idle (starting b) lt e in
      record {
        stands =
            moved-Stands g s.waiter s.gpp _ _ _ _ _ _ big h.stands (omega (arith, c.holds))
              (λ z y x. omega (arith, c.active)) (λ z y. omega (arith, c.active));
        kept = h.kept;
        fresh = omega (arith, c.stale, h.fresh);
      }
  Step-Holds {s} (store_no_error pd k) h = record {
    stands =
        moved-Stands g s.waiter s.gpp _ _ _ _ _ _ big h.stands refl (λ z. absurd (z k))
          (λ z. absurd (z k));
    kept = h.kept;
    fresh = h.fresh;
  }
  Step-Holds {s} (nothing_to_do {i} {ioready = b} lt e k) h =
      let c = assign-Change s.unblocker (starting b) idle lt e in
      record {
        stands =
            moved-Stands g s.waiter s.gpp _ _ _ _ _ _ big h.stands (omega (arith, c.holds))
              (λ z y x. absurd (ground (arith, k))) (λ z y. absurd (z y));
        kept = h.kept;
        fresh = omega (arith, c.stale, h.fresh);
      }
  Step-Holds {s} (compare {i} {ioready = b} lt e k z) h =
      let c = assign-Change s.unblocker (starting b) (comparing b s.gpp) lt e in
      record {
        stands =
            moved-Stands g s.waiter s.gpp _ _ _ _ _ _ big h.stands (omega (arith, c.holds))
              (λ z y x. omega (arith, c.active)) (λ z y. absurd (z y));
        kept = h.kept;
        fresh = ground (arith, c.stale, h.fresh);
      }
  Step-Holds {s} (swap_lost {i} {ioready = b} {old} lt e k) h =
      let c = assign-Change s.unblocker (comparing b old) (starting b) lt e in
      record {
        stands =
            moved-Stands g s.waiter s.gpp _ _ _ _ _ _ big h.stands (omega (arith, c.holds))
              (λ z y x. omega (arith, c.active)) (λ z y. absurd (z y));
        kept = h.kept;
        fresh = ground (arith, c.stale, h.fresh);
      }
  Step-Holds {s} (swap_nobody {i} {ioready = b} {old} lt e k z) h =
      let c = assign-Change s.unblocker (comparing b old) idle lt e in
      let f : old ≢ 1 = λ x. ground (arith, c.stales, h.fresh) in
      record {
        stands =
            swapped-Stands g s.waiter s.gpp (new_value b) _ _ _ _ _ big (ground arith) h.stands
              (λ x. f (sym k ∙ x)) (λ x. omega (arith, c.holds))
              (λ x. absurd (ground (arith, z, k)));
        kept = ground (arith, h.kept, f);
        fresh = ground (arith, c.stale, h.fresh, f);
      }
  Step-Holds {s} (swap_goroutine {i} {ioready = b} {old} lt e k z y) h =
      let c = assign-Change s.unblocker (comparing b old) holding lt e in
      let f : old ≢ 1 = λ x. ground (arith, c.stales, h.fresh) in
      record {
        stands =
            swapped-Stands g s.waiter s.gpp (new_value b) _ _ _ _ _ big (ground arith) h.stands
              (λ x. f (sym k ∙ x)) (λ x. absurd (ground (arith, f))) (λ x. omega (arith, c.holds));
        kept = ground (arith, h.kept, f);
        fresh = ground (arith, c.stale, h.fresh, f);
      }
  Step-Holds {s} (make_runnable {i} lt e k) h =
      let c = assign-Change s.unblocker holding idle lt e in
      let p = at parked h k in
      record { stands = ground arith; kept = h.kept; fresh = omega (arith, c.stale, h.fresh) }

  pub Reach-Holds :
      {pd : PollDesc} {s : System}
      → Reach commit g mode n pd s
      → Holds g mode s (census n s.unblocker)
  Reach-Holds start =
      let h = tally-const Inv.holds n idle refl in
      record { stands = omega (arith, h); kept = refl; fresh = tally-const Inv.stale n idle refl }
  Reach-Holds (after r st) = Step-Holds st (Reach-Holds r)
