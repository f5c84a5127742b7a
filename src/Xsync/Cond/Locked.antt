-- ===== src/Xsync/Cond/Locked.antt =====
-- Who has the lock of a Cond of xsync/cond.go, and which goroutines a broadcast wakes.
use srcrd.Prelude.{
  ℕ, ◌<◌, ◌≡◌, refl, sym, ap, inl, inr, Bool, true, false, Option, none, some, arith, ltb,
  Bool-cases, ◌==◌,
}
use srcrd.Threads.{assign}
use srcrd.Xsync.Cond.{
  NotifyList, IsDocumented, Pc, outside, inside, added, sleeping, locking, System, Step, lock,
  unlock, wait_add, wait_unlock, wait_wakes, wait_lock, broadcast, Reach, start, after,
}
use srcrd.Xsync.Cond.Wakes.{sleeping_goes, woken_by_broadcast}

-- Whether a goroutine stands where it must have the lock.
abbrev pub owns : Pc → Bool
owns inside = true
owns (added t b) = true
owns _ = false

abbrev pub holds : Option ℕ → ℕ → Bool
holds none j = false
holds (some i) j = i == j

abbrev Locked : (ℕ → Pc) → Option ℕ → Type 0
Locked pc holder = (j : ℕ) → owns (pc j) ≡ holds holder j

-- A goroutine that sleeps goes on after a broadcast only, and then.
abbrev pub Woken : {L : Type 0} → NotifyList L → System L → Pc → Type 0
Woken notify s (sleeping t b) = notify.lets_go s.notify t ≡ ltb b s.casts
Woken notify s (locking b) = b < s.casts
Woken notify s _ = Unit

module _ (pc : ℕ → Pc) (i : ℕ) (p : Pc) where
  lock_taken : Locked pc none → owns p ≡ true → Locked (assign pc i p) (some i)
  lock_taken h e j = elim (Bool-cases (i == j)) [ inl q ↦ rw q e | inr q ↦ rw q (h j) ]

  lock_kept : (o : Option ℕ) → Locked pc o → owns p ≡ owns (pc i) → Locked (assign pc i p) o
  lock_kept o h e j = ground (arith, h i, h j)

  lock_given :
      (o : Option ℕ)
      → Locked pc o
      → owns (pc i) ≡ true
      → owns p ≡ false
      → Locked (assign pc i p) none
  lock_given none h e f j = ground (arith, h i)
  lock_given (some k) h e f j = ground (arith, h i, h j)

module _ {L : Type 0} {notify : NotifyList L} where
  Step-Locked : {s t : System L} → Locked s.pc s.holder → Step notify s t → Locked t.pc t.holder
  Step-Locked {s} h (lock i e f) = lock_taken s.pc i inside (rw f at h) refl
  Step-Locked {s} h (unlock i e) = lock_given s.pc i outside s.holder h (ap owns e) refl
  Step-Locked {s} h (wait_add i e) = lock_kept s.pc i (added _ _) s.holder h (sym (ap owns e))
  Step-Locked {s} h (wait_unlock i e) = lock_given s.pc i (sleeping _ _) s.holder h (ap owns e) refl
  Step-Locked {s} h (wait_wakes i e g) = lock_kept s.pc i (locking _) s.holder h (sym (ap owns e))
  Step-Locked {s} h (wait_lock i e f) = lock_taken s.pc i inside (rw f at h) refl
  Step-Locked {s} h broadcast = h

  Reach-Locked : {s : System L} → Reach notify s → Locked s.pc s.holder
  Reach-Locked start = λ j. refl
  Reach-Locked (after r st) = Step-Locked (Reach-Locked r) st

  woken :
      {handed : L → ℕ → Bool}
      → IsDocumented notify handed
      → {s : System L} → Reach notify s
      → (i : ℕ) (p : Pc) → s.pc i ≡ p
      → Woken notify s p
  woken doc r i outside e = tt
  woken doc r i inside e = tt
  woken doc r i (added t b) e = tt
  woken doc r i (sleeping t b) e = sleeping_goes doc r i e
  woken doc r i (locking b) e = woken_by_broadcast doc r i e

  -- In a reachable state, for a notify list as documented, a goroutine has the lock just if it is outside
  -- Wait with it, or in Wait before it gives it back: so none has it that sleeps in Wait or was woken and
  -- is about to lock, a goroutine has it when Wait returns, and no two have it at once. One that sleeps
  -- in Wait can go on just if there was a broadcast since it got its ticket, also one from before it gave
  -- the lock back; and one that was woken has had such a broadcast.
  pub wait_unlocked :
      {handed : L → ℕ → Bool}
      → IsDocumented notify handed
      → {s : System L} → Reach notify s
      → (i : ℕ) → (owns (s.pc i) ≡ holds s.holder i) × Woken notify s (s.pc i)
  wait_unlocked doc {s} r i = (Reach-Locked r i, woken doc r i (s.pc i) refl)
