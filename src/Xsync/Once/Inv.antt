-- ===== src/Xsync/Once/Inv.antt =====
-- How the state of xsync/once.go stands to the goroutines, and that every access keeps it so.
use srcrd.Prelude.{ℕ, ◌+◌, ◌≤◌, ◌<◌, ◌≡◌, refl, true, false, arith}
use srcrd.Threads.{assign, tally, tally-assign, tally-const, weight-le-tally}
use srcrd.Xsync.Once.{
  Shared, Pc, outside, checking, calling, running, storing, unlocking, returned, Move, load_done,
  load_zero, lock, check_done, check_zero, call, end, store, unlock, System, init, turn, Reach,
  start, after,
}

-- With the lock, and in the parts of that.
abbrev pub holds : Pc → ℕ
holds checking = 1
holds calling = 1
holds running = 1
holds storing = 1
holds unlocking = 1
holds _ = 0

abbrev pub before : Pc → ℕ
before calling = 1
before _ = 0

abbrev pub runs : Pc → ℕ
runs running = 1
runs _ = 0

abbrev pub stores : Pc → ℕ
stores storing = 1
stores _ = 0

abbrev pub looks : Pc → ℕ
looks checking = 1
looks unlocking = 1
looks _ = 0

-- Past the call, or a look that found `done`.
abbrev pub settled : Pc → ℕ
settled unlocking = 1
settled returned = 1
settled _ = 0

pub record Counts : Type 0 where
  pub holds : ℕ
  pub before : ℕ
  pub runs : ℕ
  pub stores : ℕ
  pub looks : ℕ
  pub settled : ℕ

pub record Holds (m : Shared) (c : Counts) : Type 0 where
  pub one : c.holds ≤ 1
  pub free : m.locked ≡ false → c.holds ≡ 0
  pub taken : m.locked ≡ true → c.holds ≡ 1
  pub inside : c.before + c.runs + c.stores + c.looks ≡ c.holds
  pub flag : m.done ≤ 1
  pub called : m.calls ≡ m.done + c.runs + c.stores
  pub ended : m.ends ≡ m.done + c.stores
  pub undone : m.done ≡ 1 → c.before + c.runs + c.stores ≡ 0
  pub done_first : 0 < c.settled → m.done ≡ 1

module _ (n : ℕ) (pc : ℕ → Pc) where
  abbrev pub census : Counts
  census = record {
    holds = tally holds n pc;
    before = tally before n pc;
    runs = tally runs n pc;
    stores = tally stores n pc;
    looks = tally looks n pc;
    settled = tally settled n pc;
  }

-- One goroutine goes from `p` to `p'`.
record Change (p p' : Pc) (c d : Counts) : Type 0 where
  was : holds p ≤ c.holds
  holds : d.holds + holds p ≡ c.holds + holds p'
  before : d.before + before p ≡ c.before + before p'
  runs : d.runs + runs p ≡ c.runs + runs p'
  stores : d.stores + stores p ≡ c.stores + stores p'
  looks : d.looks + looks p ≡ c.looks + looks p'
  settled : d.settled + settled p ≡ c.settled + settled p'

module _ {m : Shared} {c d : Counts} (h : Holds m c) where
  Move-Holds : {p p' : Pc} {m' : Shared} → Move m p m' p' → Change p p' c d → Holds m' d
  Move-Holds (load_done g) e = ground arith
  Move-Holds (load_zero g) e = ground arith
  Move-Holds (lock g) e = ground arith
  Move-Holds (check_done g) e = ground arith
  Move-Holds (check_zero g) e = ground arith
  Move-Holds call e = ground arith
  Move-Holds end e = ground arith
  Move-Holds store e = ground arith
  Move-Holds unlock e = ground arith

assign-Change :
    (n i : ℕ) (pc : ℕ → Pc) (q : Pc)
    → i < n
    → Change (pc i) q (census n pc) (census n (assign pc i q))
assign-Change n i pc q h = record {
  was = weight-le-tally holds n i pc h;
  holds = tally-assign holds n i pc q h;
  before = tally-assign before n i pc q h;
  runs = tally-assign runs n i pc q h;
  stores = tally-assign stores n i pc q h;
  looks = tally-assign looks n i pc q h;
  settled = tally-assign settled n i pc q h;
}

init-Holds : (n : ℕ) → Holds init.mem (census n init.pc)
init-Holds n = ground (
  arith,
  tally-const holds n outside refl,
  tally-const before n outside refl,
  tally-const runs n outside refl,
  tally-const stores n outside refl,
  tally-const looks n outside refl,
  tally-const settled n outside refl,
)

pub Reach-Holds : {n : ℕ} {s : System} → Reach n s → Holds s.mem (census n s.pc)
Reach-Holds {n} start = init-Holds n
Reach-Holds {n} (after {s} r (turn i {p = q} lt mv)) =
    Move-Holds (Reach-Holds r) mv (assign-Change n i s.pc q lt)
