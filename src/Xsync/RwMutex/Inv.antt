-- ===== src/Xsync/RwMutex/Inv.antt =====
-- How the counters of xsync/rwmutex.go stand to the threads.
use srcrd.Prelude.{
  ℕ, ◌+◌, ◌*◌, ◌%◌, ◌^◌, ◌≤◌, ◌<◌, ◌≡◌, Bool, true, false, ◌==◌, ◌||◌, if◌then◌else◌,
}
use srcrd.Threads.{tally}
use srcrd.Xsync.RwMutex.{
  Shared, Pc, reader_waiting, reading, leaving, waking, locking, announced, writer_waiting, writing,
  unlocking, panicked, add32, minus_max,
}

-- One weight for each kind of place.
abbrev pub reads : Pc → ℕ
reads reading = 1
reads _ = 0

abbrev pub waits : Pc → ℕ
waits reader_waiting = 1
waits _ = 0

abbrev pub leaves : Pc → ℕ
leaves (leaving r) = 1
leaves _ = 0

abbrev pub wakes : Pc → ℕ
wakes waking = 1
wakes _ = 0

abbrev pub locks : Pc → ℕ
locks locking = 1
locks _ = 0

abbrev pub announces : Pc → ℕ
announces (announced r) = 1
announces _ = 0

abbrev pub pends : Pc → ℕ
pends writer_waiting = 1
pends _ = 0

abbrev pub writes : Pc → ℕ
writes writing = 1
writes _ = 0

abbrev pub unlocks : Pc → ℕ
unlocks (unlocking i) = 1
unlocks _ = 0

-- What an announced writer saw of readers, and the wake-ups that an unlocking writer owes.
abbrev pub sees : Pc → ℕ
sees (announced r) = r
sees _ = 0

abbrev pub owes : Pc → ℕ
owes (unlocking i) = i
owes _ = 0

abbrev pub wrong : ℕ → Bool
wrong r = (add32 r 1 == 0) || (add32 r 1 == minus_max)

-- A panic, past or to come.
abbrev pub faults : Pc → ℕ
faults panicked = 1
faults (leaving r) = if wrong r then 1 else 0
faults _ = 0

pub record Counts : Type 0 where
  pub reads : ℕ
  pub waits : ℕ
  pub leaves : ℕ
  pub wakes : ℕ
  pub locks : ℕ
  pub announces : ℕ
  pub pends : ℕ
  pub writes : ℕ
  pub unlocks : ℕ
  pub sees : ℕ
  pub owes : ℕ
  pub faults : ℕ

abbrev pub flag : Bool → ℕ
flag true = 1
flag false = 0

abbrev pub claims : Counts → ℕ
claims c = c.announces + c.pends + c.writes

-- What holds of the counts of any `n` threads, wherever they stand.
pub record IsCensus (n : ℕ) (c : Counts) : Type 0 where
  pub few :
      c.reads + c.waits + c.leaves + c.wakes + c.locks + c.announces + c.pends + c.writes
        + c.unlocks
      ≤ n
  pub no_sees : c.announces ≡ 0 → c.sees ≡ 0
  pub no_owes : c.unlocks ≡ 0 → c.owes ≡ 0

-- What holds between any two accesses, with `n` threads.
pub record Holds (n : ℕ) (m : Shared) (c : Counts) : Type 0 where
  pub crowd : IsCensus n c
  pub owner : c.locks + claims c + c.unlocks ≡ flag m.held
  pub count : m.reader_count ≡ (c.reads + c.waits + minus_max * claims c) % 2 ^ 32
  pub no_faults : c.faults ≡ 0
  pub open_tokens : claims c ≡ 0 → m.reader_sem + c.owes ≡ c.waits
  pub open_wait :
      claims c ≡ 0 → (m.reader_wait ≡ 0) × (m.writer_sem ≡ 0) × (c.leaves ≡ 0) × (c.wakes ≡ 0)
  pub tokens : m.reader_sem ≤ c.waits
  pub seen : c.announces ≡ 1 → c.sees ≤ n
  pub announced_wait :
      c.announces ≡ 1
      → ((m.reader_wait + c.sees) % 2 ^ 32 ≡ c.reads + m.reader_sem + c.leaves)
        × (c.reads + m.reader_sem + c.leaves ≤ c.sees)
        × (m.writer_sem ≡ 0)
        × (c.wakes ≡ 0)
        × (m.reader_wait < 2 ^ 32)
  pub pending_wait :
      c.pends ≡ 1
      → (m.reader_wait ≡ c.reads + m.reader_sem + c.leaves)
        × (c.wakes + m.writer_sem ≡ (if m.reader_wait == 0 then 1 else 0))
  pub writing_alone :
      c.writes ≡ 1
      → (c.reads ≡ 0)
        × (m.reader_sem ≡ 0)
        × (c.leaves ≡ 0)
        × (c.wakes ≡ 0)
        × (m.writer_sem ≡ 0)
        × (m.reader_wait ≡ 0)

module _ (n : ℕ) (pc : ℕ → Pc) where
  abbrev pub census : Counts
  census = record {
    reads = tally reads n pc;
    waits = tally waits n pc;
    leaves = tally leaves n pc;
    wakes = tally wakes n pc;
    locks = tally locks n pc;
    announces = tally announces n pc;
    pends = tally pends n pc;
    writes = tally writes n pc;
    unlocks = tally unlocks n pc;
    sees = tally sees n pc;
    owes = tally owes n pc;
    faults = tally faults n pc;
  }
