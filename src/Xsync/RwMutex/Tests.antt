-- ===== src/Xsync/RwMutex/Tests.antt =====
-- Runs of xsync/rwmutex.go, and each theorem at one of them.
use srcrd.Prelude.{ℕ, zero, suc, ◌^◌, ◌≤◌, ◌<◌, ◌≡◌, ◌≢◌, refl, false, arith, inl, some}
use srcrd.Xsync.Sema.{counting, counting-IsDocumented, stand_in}
use srcrd.Xsync.RwMutex.{
  reading, writing, panicked, one_more, System, turn, Reach, start, after, rlock_fast, rlock_slow,
  runlock_slow, slow_last, wake_writer, lock_mutex, announce_free, announce_read, wait_some,
  lock_woken, unlock_readers, release_reader, unlock_mutex,
}
use srcrd.Xsync.RwMutex.Safety.{mutual_exclusion, no_panic, writer_first, writer_can_go, departs}

-- Thread 0 writes, and thread 1 waits to read.
abbrev one_writes : (s : System) × Reach counting 2 s
one_writes = (
  _,
  after
      (after (after start (turn 0 (omega arith) (lock_mutex refl)))
        (turn 0 (omega arith) (announce_free refl)))
      (turn 1 (omega arith) (rlock_slow (omega arith))),
)

-- The writer has let go of the lock, and has woken thread 1.
abbrev reader_woken : (s : System) × Reach counting 2 s
reader_woken = (
  _,
  after
      (after (after one_writes.1 (turn 0 (omega arith) (unlock_readers (inl (omega arith)))))
        (turn 0 (omega arith) (release_reader refl)))
      (turn 0 (omega arith) (unlock_mutex refl)),
)

-- Thread 0 reads, and thread 1 waits to write.
abbrev one_reads : (s : System) × Reach counting 2 s
one_reads = (
  _,
  after
      (after
        (after (after start (turn 0 (omega arith) (rlock_fast (omega arith))))
          (turn 1 (omega arith) (lock_mutex refl)))
        (turn 1 (omega arith) (announce_read (omega arith))))
      (turn 1 (omega arith) (wait_some (omega arith))),
)

-- The reader has left, and has woken the writer.
abbrev writer_woken : (s : System) × Reach counting 2 s
writer_woken = (
  _,
  after
      (after (after one_reads.1 (turn 0 (omega arith) (runlock_slow (omega arith))))
        (turn 0 (omega arith) (slow_last (omega arith) refl)))
      (turn 0 (omega arith) wake_writer),
)

mutual_exclusion_example :
    (one_writes.0.pc 1 ≢ reading) × (one_writes.0.pc 1 ≡ writing → ◌≡◌ {A = ℕ} 0 1)
mutual_exclusion_example =
    mutual_exclusion counting-IsDocumented (omega arith) one_writes.1 0 1 (omega arith)
      (omega arith) refl

no_panic_example : one_writes.0.pc 1 ≢ panicked
no_panic_example = no_panic counting-IsDocumented (omega arith) one_writes.1 1 (omega arith)

writer_first_example : 2 ^ 31 ≤ one_more one_reads.0.mem
writer_first_example =
    writer_first counting-IsDocumented (omega arith) one_reads.1 1 (omega arith) refl

nobody_departs : (j : ℕ) → j < 2 → departs (writer_woken.0.pc j) ≡ false
nobody_departs zero h = refl
nobody_departs (suc zero) h = refl
nobody_departs (suc (suc j)) h = absurd (omega arith)

writer_can_go_example : counting.acquire writer_woken.0.mem.writer_sem ≡ some 0
writer_can_go_example =
    writer_can_go counting-IsDocumented (omega arith) writer_woken.1 1 (omega arith) refl refl
      nobody_departs

-- With the empty bodies of xsync/sema.go a writer goes on while thread 0 still reads.
stand_in_overlap : (s : System) × Reach stand_in 2 s × (s.pc 0 ≡ reading) × (s.pc 1 ≡ writing)
stand_in_overlap = (
  _,
  after
      (after
        (after
          (after (after start (turn 0 (omega arith) (rlock_fast (omega arith))))
            (turn 1 (omega arith) (lock_mutex refl)))
          (turn 1 (omega arith) (announce_read (omega arith))))
        (turn 1 (omega arith) (wait_some (omega arith))))
      (turn 1 (omega arith) (lock_woken refl)),
  refl,
  refl,
)
