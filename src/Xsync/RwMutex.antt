-- ===== src/Xsync/RwMutex.antt =====
-- xsync/rwmutex.go: the reader/writer lock, an atomic access at a time, with any number of threads
-- interleaved. The mutex `rw.w` is sync.Mutex, of the Go library: its Lock waits for the flag to be
-- clear. The semaphores are those of `Xsync.Sema`.
pub mod Inv
pub mod Moves
pub mod Reachable
pub mod Safety
mod Tests
use srcrd.Prelude.{
  ℕ, zero, suc, ◌+◌, ◌-◌, ◌%◌, ◌^◌, ◌≤◌, ◌<◌, ◌≡◌, ◌≢◌, ◌⊎◌, Bool, true, false, Option, some, ltb,
  if◌then◌else◌,
}
use srcrd.Threads.{assign}
use srcrd.Xsync.Sema.{Semaphore}

-- An int32 is its bit pattern, below 2 ^ 32; a pattern from 2 ^ 31 on is negative.
abbrev pub add32 : ℕ → ℕ → ℕ
add32 a b = (a + b) % 2 ^ 32

abbrev pub minus_one : ℕ
minus_one = 2 ^ 32 - 1

-- `rwmutexMaxReaders`
abbrev pub max_readers : ℕ
max_readers = 2 ^ 30

abbrev pub minus_max : ℕ
minus_max = 2 ^ 32 - 2 ^ 30

-- `RWMutex`; `held` is the state of `w`.
pub record Shared : Type 0 where
  pub held : Bool
  pub writer_sem : ℕ
  pub reader_sem : ℕ
  pub reader_count : ℕ
  pub reader_wait : ℕ

-- Where a thread stands.
pub data Pc : Type 0 where
  idle : Pc  -- outside every method, holding nothing
  reader_waiting : Pc  -- in RLock, at readerSem
  reading : Pc  -- after RLock
  leaving : (r : ℕ) → Pc  -- in rUnlockSlow(r)
  waking : Pc  -- in rUnlockSlow, before Semrelease
  locking : Pc  -- in Lock, with `w`
  announced : (r : ℕ) → Pc  -- in Lock, before the access to readerWait
  writer_waiting : Pc  -- in Lock, at writerSem
  writing : Pc  -- after Lock
  unlocking : (i : ℕ) → Pc  -- in Unlock, with `i` rounds of the loop to go
  panicked : Pc

-- The rounds of `for i := 0; i < int(r); i++`: none if `r` is negative.
abbrev pub rounds : ℕ → ℕ
rounds r = if ltb r (2 ^ 31) then r else 0

-- `readerCount` after the first access of RLock, RUnlock, Lock and Unlock.
abbrev pub one_more : Shared → ℕ
one_more m = add32 m.reader_count 1

abbrev pub one_less : Shared → ℕ
one_less m = add32 m.reader_count minus_one

abbrev pub claimed : Shared → ℕ
claimed m = add32 m.reader_count minus_max

abbrev pub unclaimed : Shared → ℕ
unclaimed m = add32 m.reader_count max_readers

-- The test of rUnlockSlow for a lock that is not read-locked.
abbrev pub IsMisuse : ℕ → Type 0
IsMisuse r = (add32 r 1 ≡ 0) ⊎ (add32 r 1 ≡ minus_max)

module _ (sema : Semaphore) where
  -- One atomic access of one thread. A thread calls RUnlock after its own RLock, and Unlock after its
  -- own Lock.
  pub data Move (m : Shared) : Pc → Shared → Pc → Type 0 where
    rlock_fast : one_more m < 2 ^ 31 → Move m idle (record m { reader_count = one_more m }) reading
    rlock_slow :
        2 ^ 31 ≤ one_more m → Move m idle (record m { reader_count = one_more m }) reader_waiting
    rlock_woken :
        {t : ℕ}
        → sema.acquire m.reader_sem ≡ some t
        → Move m reader_waiting (record m { reader_sem = t }) reading
    runlock_fast :
        one_less m < 2 ^ 31 → Move m reading (record m { reader_count = one_less m }) idle
    runlock_slow :
        2 ^ 31 ≤ one_less m
        → Move m reading (record m { reader_count = one_less m }) (leaving (one_less m))
    slow_panic : {r : ℕ} → IsMisuse r → Move m (leaving r) m panicked
    slow_more :
        {r : ℕ}
        → ¬ IsMisuse r
        → add32 m.reader_wait minus_one ≢ 0
        → Move m (leaving r) (record m { reader_wait = add32 m.reader_wait minus_one }) idle
    slow_last :
        {r : ℕ}
        → ¬ IsMisuse r
        → add32 m.reader_wait minus_one ≡ 0
        → Move m (leaving r) (record m { reader_wait = add32 m.reader_wait minus_one }) waking
    wake_writer : Move m waking (record m { writer_sem = sema.release m.writer_sem }) idle
    lock_mutex : m.held ≡ false → Move m idle (record m { held = true }) locking
    announce_free :
        add32 (claimed m) max_readers ≡ 0
        → Move m locking (record m { reader_count = claimed m }) writing
    announce_read :
        add32 (claimed m) max_readers ≢ 0
        → Move m locking
            (record m { reader_count = claimed m })
            (announced (add32 (claimed m) max_readers))
    wait_none :
        {r : ℕ}
        → add32 m.reader_wait r ≡ 0
        → Move m (announced r) (record m { reader_wait = add32 m.reader_wait r }) writing
    wait_some :
        {r : ℕ}
        → add32 m.reader_wait r ≢ 0
        → Move m (announced r) (record m { reader_wait = add32 m.reader_wait r }) writer_waiting
    lock_woken :
        {t : ℕ}
        → sema.acquire m.writer_sem ≡ some t
        → Move m writer_waiting (record m { writer_sem = t }) writing
    unlock_panic :
        max_readers ≤ unclaimed m
        → unclaimed m < 2 ^ 31
        → Move m writing (record m { reader_count = unclaimed m }) panicked
    unlock_readers :
        (unclaimed m < max_readers) ⊎ (2 ^ 31 ≤ unclaimed m)
        → Move m writing
            (record m { reader_count = unclaimed m })
            (unlocking (rounds (unclaimed m)))
    release_reader :
        {i k : ℕ}
        → k ≡ suc i
        → Move m (unlocking k) (record m { reader_sem = sema.release m.reader_sem }) (unlocking i)
    unlock_mutex : {k : ℕ} → k ≡ 0 → Move m (unlocking k) (record m { held = false }) idle

-- `n` threads that share one lock.
pub record System : Type 0 where
  pub mem : Shared
  pub pc : ℕ → Pc

-- The zero value of `RWMutex`, and no thread inside.
abbrev pub init : System
init = record {
  mem = record { held = false; writer_sem = 0; reader_sem = 0; reader_count = 0; reader_wait = 0 };
  pc = λ _. idle;
}

module _ (sema : Semaphore) (n : ℕ) where
  pub data Step (s : System) : System → Type 0 where
    turn :
        (i : ℕ) {m : Shared} {p : Pc}
        → i < n
        → Move sema s.mem (s.pc i) m p
        → Step s (record { mem = m; pc = assign s.pc i p })

  pub data Reach : System → Type 0 where
    start : Reach init
    after : {s t : System} → Reach s → Step s t → Reach t
