-- ===== src/Xsync/RwMutex/Safety.antt =====
-- What the lock of xsync/rwmutex.go guarantees to its users, in every reachable state.
use srcrd.Prelude.{
  ℕ, suc, ◌+◌, ◌-◌, ◌^◌, ◌≤◌, ◌<◌, ◌≡◌, ◌≢◌, Bool, true, false, ◌==◌, arith, inl, inr, Bool-cases,
  some, ap, ◌∙◌,
}
use srcrd.Threads.{tally, weight-le-tally, pair-le-tally, tally-eq-zero}
use srcrd.Xsync.Sema.{Semaphore, IsDocumented}
use srcrd.Xsync.RwMutex.{
  Pc, reader_waiting, reading, leaving, waking, announced, writer_waiting, writing, panicked,
  max_readers, one_more, System, Reach,
}
use srcrd.Xsync.RwMutex.Inv.{
  Holds, flag, reads, waits, leaves, wakes, announces, pends, writes, faults, census,
}
use srcrd.Xsync.RwMutex.Reachable.{Reach-Holds}

flag_small : (b : Bool) → flag b ≤ 1
flag_small true = omega arith
flag_small false = omega arith

-- A writer that new readers have to let pass.
abbrev pub claiming : Pc → Bool
claiming (announced x) = true
claiming writer_waiting = true
claiming writing = true
claiming _ = false

-- A thread in its read section, or in rUnlockSlow.
abbrev pub departs : Pc → Bool
departs reading = true
departs (leaving x) = true
departs waking = true
departs _ = false

claiming-claims : (p : Pc) → claiming p ≡ true → announces p + pends p + writes p ≡ 1
claiming-claims p e = ground arith

departs-none : (p : Pc) → departs p ≡ false → (reads p ≡ 0) × (leaves p ≡ 0) × (wakes p ≡ 0)
departs-none p e = ground arith

-- In what follows `n` threads, fewer than rwmutexMaxReaders, have run for any number of accesses.
module _ {sema : Semaphore} (doc : IsDocumented sema) {n : ℕ} (small : n < max_readers) {s : System}
    (r : Reach sema n s) where
  holds : Holds n s.mem (census n s.pc)
  holds = Reach-Holds doc small r

  in_tally : (w : Pc → ℕ) (i : ℕ) {p : Pc} → i < n → s.pc i ≡ p → w p ≤ tally w n s.pc
  in_tally w i lt e = rw e at (weight-le-tally w n i s.pc lt)

  -- For fewer threads than rwmutexMaxReaders, semaphores as documented, and a reachable state:
  -- while a thread is in its write section no other thread is in a read or a write section.
  pub mutual_exclusion :
      (i j : ℕ) → i < n → j < n → s.pc i ≡ writing → (s.pc j ≢ reading) × (s.pc j ≡ writing → i ≡ j)
  mutual_exclusion i j hi hj wi = (
    λ rj. omega (arith, mine, alone, in_tally reads j hj rj),
    λ wj. elim (Bool-cases (i == j)) [
      | inl e ↦ ground arith
      | inr e ↦
          let two = pair-le-tally writes n i j s.pc hi hj (ground arith) in
          absurd (omega (arith, (rw (wi, wj) at two), holds.owner, flag_small s.mem.held))
    ],
  )
    where
      mine : tally writes n s.pc ≡ 1
      mine = omega (arith, in_tally writes i hi wi, holds.owner, flag_small s.mem.held)

      alone : tally reads n s.pc ≡ 0
      alone = (holds.writing_alone mine).0

  -- For fewer threads than rwmutexMaxReaders, semaphores as documented, and a reachable state:
  -- no thread, its calls paired, has panicked.
  pub no_panic : (i : ℕ) → i < n → s.pc i ≢ panicked
  no_panic i lt e = omega (arith, in_tally faults i lt e, holds.no_faults)

  -- For fewer threads than rwmutexMaxReaders, semaphores as documented, and a reachable state:
  -- from the first access of Lock up to Unlock, RLock makes a new reader wait.
  pub writer_first : (i : ℕ) → i < n → claiming (s.pc i) ≡ true → 2 ^ 31 ≤ one_more s.mem
  writer_first i lt e = omega (
    arith,
    claiming-claims (s.pc i) e,
    weight-le-tally announces n i s.pc lt,
    weight-le-tally pends n i s.pc lt,
    weight-le-tally writes n i s.pc lt,
    holds.owner,
    holds.count,
    holds.crowd.few,
    flag_small s.mem.held,
  )

  -- For fewer threads than rwmutexMaxReaders, semaphores as documented, and a reachable state:
  -- a writer that waits while no thread reads or is on its way out of rUnlockSlow, and no reader has
  -- a wake-up to take, can go on.
  pub writer_can_go :
      (i : ℕ)
      → i < n
      → s.pc i ≡ writer_waiting
      → s.mem.reader_sem ≡ 0
      → ((j : ℕ) → j < n → departs (s.pc j) ≡ false)
      → sema.acquire s.mem.writer_sem ≡ some 0
  writer_can_go i lt e z quiet = rw one (doc.acquire_suc 0)
    where
      pending : tally pends n s.pc ≡ 1
      pending = omega (arith, in_tally pends i lt e, holds.owner, flag_small s.mem.held)

      none_reads : tally reads n s.pc ≡ 0
      none_reads = tally-eq-zero reads n s.pc (λ j h. (departs-none (s.pc j) (quiet j h)).0)

      none_leaves : tally leaves n s.pc ≡ 0
      none_leaves = tally-eq-zero leaves n s.pc (λ j h. (departs-none (s.pc j) (quiet j h)).1)

      none_wakes : tally wakes n s.pc ≡ 0
      none_wakes = tally-eq-zero wakes n s.pc (λ j h. (departs-none (s.pc j) (quiet j h)).2)

      one : s.mem.writer_sem ≡ suc 0
      one = ground (arith, holds.pending_wait pending, none_reads, none_leaves, none_wakes, z)

  -- For fewer threads than rwmutexMaxReaders, semaphores as documented, and a reachable state:
  -- when no thread holds `w`, every reader that waits can go on.
  pub reader_can_go :
      (i : ℕ)
      → i < n
      → s.pc i ≡ reader_waiting
      → s.mem.held ≡ false
      → (t : ℕ) × (sema.acquire s.mem.reader_sem ≡ some t)
  reader_can_go i lt e free =
      (s.mem.reader_sem - 1, ap sema.acquire left ∙ doc.acquire_suc (s.mem.reader_sem - 1))
    where
      unheld : flag s.mem.held ≡ 0
      unheld = ap flag free

      left : s.mem.reader_sem ≡ suc (s.mem.reader_sem - 1)
      left = omega (
        arith,
        in_tally waits i lt e,
        holds.owner,
        unheld,
        holds.open_tokens (omega (arith, holds.owner, unheld)),
        holds.crowd.no_owes (omega (arith, holds.owner, unheld)),
      )
