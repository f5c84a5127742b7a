-- ===== src/Xsync/RwMutex/Moves.antt =====
-- Every access of xsync/rwmutex.go keeps the counters in step with the threads.
use srcrd.Prelude.{ℕ, ◌+◌, ◌^◌, ◌≤◌, ◌<◌, ◌≡◌, Bool, arith}
use srcrd.Xsync.Sema.{Semaphore, IsDocumented}
use srcrd.Xsync.RwMutex.{
  Shared, Pc, max_readers, Move, one_less, one_more, rlock_fast, rlock_slow, rlock_woken,
  runlock_fast, runlock_slow, slow_panic, slow_more, slow_last, wake_writer, lock_mutex,
  announce_free, announce_read, wait_none, wait_some, lock_woken, unlock_panic, unlock_readers,
  release_reader, unlock_mutex,
}
use srcrd.Xsync.RwMutex.Inv.{
  Counts, IsCensus, Holds, flag, claims, reads, waits, leaves, wakes, locks, announces, pends,
  writes, unlocks, sees, owes, faults,
}

-- One thread goes from `p` to `q`.
pub record Change (p q : Pc) (c d : Counts) : Type 0 where
  pub faulty : faults p ≤ c.faults
  pub reads : d.reads + reads p ≡ c.reads + reads q
  pub waits : d.waits + waits p ≡ c.waits + waits q
  pub leaves : d.leaves + leaves p ≡ c.leaves + leaves q
  pub wakes : d.wakes + wakes p ≡ c.wakes + wakes q
  pub locks : d.locks + locks p ≡ c.locks + locks q
  pub announces : d.announces + announces p ≡ c.announces + announces q
  pub pends : d.pends + pends p ≡ c.pends + pends q
  pub writes : d.writes + writes p ≡ c.writes + writes q
  pub unlocks : d.unlocks + unlocks p ≡ c.unlocks + unlocks q
  pub sees : d.sees + sees p ≡ c.sees + sees q
  pub owes : d.owes + owes p ≡ c.owes + owes q
  pub faults : d.faults + faults p ≡ c.faults + faults q

module _ {n : ℕ} (small : n < max_readers) {m : Shared} {c : Counts} (h : Holds n m c) where
  flag_small : (b : Bool) → flag b ≤ 1
  flag_small b = ground arith

  -- The sign of `readerCount` tells whether a writer has announced itself.
  not_claimed : 1 ≤ c.reads → one_less m < 2 ^ 31 → claims c ≡ 0
  not_claimed r g = omega (arith, h.count, h.owner, h.crowd.few, flag_small m.held)

  is_claimed : 1 ≤ c.reads → 2 ^ 31 ≤ one_less m → claims c ≡ 1
  is_claimed r g = omega (arith, h.count, h.owner, h.crowd.few, flag_small m.held)

  fast_open : one_more m < 2 ^ 31 → claims c ≡ 0
  fast_open g = omega (arith, h.count, h.owner, h.crowd.few, flag_small m.held)

  slow_claimed : 2 ^ 31 ≤ one_more m → claims c ≡ 1
  slow_claimed g = omega (arith, h.count, h.owner, h.crowd.few, flag_small m.held)

module _ {sema : Semaphore} (doc : IsDocumented sema) {n : ℕ} (small : n < max_readers) {m : Shared}
    {c d : Counts} (h : Holds n m c) where
  -- Whatever access a thread makes.
  pub Move-Holds :
      {p q : Pc} {m' : Shared} → Move sema m p m' q → Change p q c d → IsCensus n d → Holds n m' d
  Move-Holds (rlock_fast g) e w = ground (arith, fast_open small h g)
  Move-Holds (rlock_slow g) e w = ground (arith, slow_claimed small h g)
  Move-Holds (rlock_woken {t} g) e w = ground (arith, doc.acquire_some m.reader_sem t g)
  Move-Holds (runlock_fast g) e w = ground (arith, not_claimed small h (omega (arith, e.reads)) g)
  Move-Holds (runlock_slow g) e w = ground (arith, is_claimed small h (omega (arith, e.reads)) g)
  Move-Holds (slow_panic g) e w = ground (arith)
  Move-Holds (slow_more g k) e w = ground (arith)
  Move-Holds (slow_last g k) e w = ground (arith)
  Move-Holds wake_writer e w = ground (arith, doc.release_suc m.writer_sem)
  Move-Holds (lock_mutex g) e w = ground (arith)
  Move-Holds (announce_free g) e w = ground (arith)
  Move-Holds (announce_read g) e w = ground (arith)
  Move-Holds (wait_none g) e w = ground (arith)
  Move-Holds (wait_some g) e w = ground (arith)
  Move-Holds (lock_woken {t} g) e w = ground (arith, doc.acquire_some m.writer_sem t g)
  Move-Holds (unlock_panic g k) e w = ground (arith)
  Move-Holds (unlock_readers g) e w = ground (arith)
  Move-Holds (release_reader {i} g) e w = ground (arith, doc.release_suc m.reader_sem)
  Move-Holds (unlock_mutex g) e w = ground (arith)
