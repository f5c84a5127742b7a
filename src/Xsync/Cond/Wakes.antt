-- ===== src/Xsync/Cond/Wakes.antt =====
-- Which goroutines a broadcast of xsync/cond.go wakes.
use srcrd.Prelude.{
  ℕ, ◌+◌, ◌≤◌, ◌<◌, ◌≡◌, sym, ◌∙◌, inl, inr, Bool, true, arith, ltb, Bool-cases, ◌==◌, ltb→lt,
}
use srcrd.Threads.{assign}
use srcrd.Xsync.Cond.{
  NotifyList, IsDocumented, Pc, outside, inside, added, sleeping, locking, System, Step, lock,
  unlock, wait_add, wait_unlock, wait_wakes, wait_lock, broadcast, Reach, start, after,
}

module _ {L : Type 0} {notify : NotifyList L} {handed : L → ℕ → Bool}
    (doc : IsDocumented notify handed) where
  -- A ticket that was given out after `b` broadcasts, `casts` of them by now: it lets go if there was one
  -- since.
  record Ticket (l : L) (t b casts : ℕ) : Type 0 where
    given : handed l t ≡ true
    early : b ≤ casts
    goes : notify.lets_go l t ≡ ltb b casts

  abbrev Fits : L → ℕ → Pc → Type 0
  Fits l casts outside = Unit
  Fits l casts inside = Unit
  Fits l casts (added t b) = Ticket l t b casts
  Fits l casts (sleeping t b) = Ticket l t b casts
  Fits l casts (locking b) = b < casts

  new-Ticket : (l : L) (casts : ℕ) → Ticket (notify.add l).1 (notify.add l).0 casts casts
  new-Ticket l casts = record {
    given = doc.hands l;
    early = omega arith;
    goes = doc.waits l ∙ ground arith;
  }

  add-Ticket : (l : L) (t b casts : ℕ) → Ticket l t b casts → Ticket (notify.add l).1 t b casts
  add-Ticket l t b casts k = record {
    given = doc.hands_more l t k.given;
    early = k.early;
    goes = doc.others l t (doc.hands_new l t k.given) ∙ k.goes;
  }

  cast-Ticket :
      (l : L) (t b casts : ℕ) → Ticket l t b casts → Ticket (notify.notify_all l) t b (casts + 1)
  cast-Ticket l t b casts k = record {
    given = doc.keeps l t ∙ k.given;
    early = omega (arith, k.early);
    goes = doc.all l t k.given ∙ ground (arith, k.early);
  }

  add-Fits : (l : L) (casts : ℕ) (p : Pc) → Fits l casts p → Fits (notify.add l).1 casts p
  add-Fits l casts outside f = f
  add-Fits l casts inside f = f
  add-Fits l casts (added t b) f = add-Ticket l t b casts f
  add-Fits l casts (sleeping t b) f = add-Ticket l t b casts f
  add-Fits l casts (locking b) f = f

  cast-Fits :
      (l : L) (casts : ℕ) (p : Pc) → Fits l casts p → Fits (notify.notify_all l) (casts + 1) p
  cast-Fits l casts outside f = f
  cast-Fits l casts inside f = f
  cast-Fits l casts (added t b) f = cast-Ticket l t b casts f
  cast-Fits l casts (sleeping t b) f = cast-Ticket l t b casts f
  cast-Fits l casts (locking b) f = omega arith

  abbrev AllFit : System L → Type 0
  AllFit s = (i : ℕ) → Fits s.notify s.casts (s.pc i)

  assign-Fits :
      (l : L) (casts : ℕ) (pc : ℕ → Pc) (i : ℕ) (p : Pc)
      → ((j : ℕ) → Fits l casts (pc j))
      → Fits l casts p
      → (j : ℕ) → Fits l casts (assign pc i p j)
  assign-Fits l casts pc i p h f j = elim (Bool-cases (i == j)) [
    | inl e ↦ rw e f
    | inr e ↦ rw e (h j)
  ]

  Step-AllFit : {s t : System L} → AllFit s → Step notify s t → AllFit t
  Step-AllFit {s} h (lock i e f) = assign-Fits s.notify s.casts s.pc i inside h tt
  Step-AllFit {s} h (unlock i e) = assign-Fits s.notify s.casts s.pc i outside h tt
  Step-AllFit {s} h (wait_add i e) =
      assign-Fits (notify.add s.notify).1 s.casts s.pc i (added (notify.add s.notify).0 s.casts)
        (λ j. add-Fits s.notify s.casts (s.pc j) (h j)) (new-Ticket s.notify s.casts)
  Step-AllFit {s} h (wait_unlock i {t} {b} e) =
      assign-Fits s.notify s.casts s.pc i (sleeping t b) h (rw e at (h i))
  Step-AllFit {s} h (wait_wakes i {t} {b} e g) =
      let k : Ticket s.notify t b s.casts = rw e at (h i) in
      assign-Fits s.notify s.casts s.pc i (locking b) h (ltb→lt b s.casts (sym k.goes ∙ g))
  Step-AllFit {s} h (wait_lock i e f) = assign-Fits s.notify s.casts s.pc i inside h tt
  Step-AllFit {s} h broadcast = λ j. cast-Fits s.notify s.casts (s.pc j) (h j)

  Reach-AllFit : {s : System L} → Reach notify s → AllFit s
  Reach-AllFit start = λ i. tt
  Reach-AllFit (after r st) = Step-AllFit (Reach-AllFit r) st

  -- In a reachable state, for a notify list as documented, a goroutine that sleeps in Wait can go on just
  -- if there was a broadcast since it got its ticket, also one from before it gave the lock back.
  pub sleeping_goes :
      {s : System L}
      → Reach notify s
      → (i : ℕ) {t b : ℕ} → s.pc i ≡ sleeping t b
      → notify.lets_go s.notify t ≡ ltb b s.casts
  sleeping_goes r i e = (rw e at (Reach-AllFit r i)).goes

  -- In a reachable state, for a notify list as documented, a goroutine that was woken in Wait has had a
  -- broadcast since it got its ticket.
  pub woken_by_broadcast :
      {s : System L} → Reach notify s → (i : ℕ) {b : ℕ} → s.pc i ≡ locking b → b < s.casts
  woken_by_broadcast r i e = rw e at (Reach-AllFit r i)
