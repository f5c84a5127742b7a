-- ===== src/Netpoll/Cache.antt =====
-- The descriptors of netpoll/netpoll0.go and netpoll2.go: `pollCache`, and `poll_runtime_pollOpen`. A
-- descriptor is the number of its place in the memory that was asked for. The size of a descriptor comes
-- from the compiler, and what the kernel says to `netpollopen` from outside: both are parameters.
pub mod Opens
mod Tests
use srcrd.Prelude.{
  ℕ, zero, suc, ◌+◌, ◌*◌, ◌/◌, ◌%◌, ◌^◌, Bool, true, false, not, ◌&&◌, ◌||◌, Option, none, some,
  List, [], ◌∷◌, ◌==◌, if◌then◌else◌,
}
use srcrd.Netpoll.Wait.{pd_nil, pd_ready}

-- `pollDesc`, less its lock, its timers and its unused fields.
pub record PollDesc : Type 0 where
  pub fd : ℕ
  pub closing : Bool
  pub everr : Bool
  pub rseq : ℕ
  pub rg : ℕ
  pub rd : ℕ
  pub wseq : ℕ
  pub wg : ℕ
  pub wd : ℕ

-- `pollCache`: the free descriptors from `first` on, the first place of memory not asked for yet, and the
-- descriptors.
pub record PollCache : Type 0 where
  pub first : List ℕ
  pub next : ℕ
  pub desc : ℕ → PollDesc

abbrev pub poll_block_size : ℕ
poll_block_size = 4 * 1024

-- How many descriptors `alloc` makes at once.
abbrev pub batch : ℕ → ℕ
batch pd_size = let n = poll_block_size / pd_size in if n == 0 then 1 else n

-- The loop of `alloc`.
pub link_all : ℕ → ℕ → List ℕ → List ℕ
link_all zero pd first = first
link_all (suc n) pd first = link_all n (pd + 1) (pd ∷ first)

pub refill : ℕ → PollCache → PollCache
refill pd_size c = record c {
  first = link_all (batch pd_size) c.next c.first;
  next = c.next + batch pd_size;
}

-- The first of the list; `none` is a nil pointer.
pub pop_first : PollCache → List ℕ → Option (ℕ × PollCache)
pop_first c [] = none
pop_first c (pd ∷ rest) = some (pd, record c { first = rest })

-- `alloc`
pub alloc : ℕ → PollCache → Option (ℕ × PollCache)
alloc pd_size c = elim c.first [
  | [] ↦ let c' = refill pd_size c in pop_first c' c'.first
  | pd ∷ rest ↦ pop_first c (pd ∷ rest)
]

-- `free`
pub free : ℕ → PollCache → PollCache
free pd c = record c { first = pd ∷ c.first }

-- The assignments of `poll_runtime_pollOpen`.
abbrev pub opened_desc : ℕ → PollDesc → PollDesc
opened_desc fd d = record {
  fd = fd;
  closing = false;
  everr = false;
  rseq = (d.rseq + 1) % 2 ^ 64;
  rg = pd_nil;
  rd = 0;
  wseq = (d.wseq + 1) % 2 ^ 64;
  wg = pd_nil;
  wd = 0;
}

abbrev pub assign_desc : (ℕ → PollDesc) → ℕ → PollDesc → ℕ → PollDesc
assign_desc f pd d j = if pd == j then d else f j

-- A semaphore that a goroutine is blocked on.
abbrev pub is_blocked : ℕ → Bool
is_blocked g = not (g == pd_nil) && not (g == pd_ready)

-- A descriptor, the error of the kernel, a throw, or a nil pointer.
pub data Opened : Type 0 where
  opened : ℕ → PollCache → Opened
  failed : ℕ → PollCache → Opened
  throws nil_pointer : Opened

module _ (netpollopen : ℕ → ℕ → ℕ) (pd_size : ℕ) where
  pub open_at : ℕ → ℕ → PollCache → Opened
  unfolding free
  open_at fd pd c =
      let d = c.desc pd in
      let c' = record c { desc = assign_desc c.desc pd (opened_desc fd d) } in
      let errno = netpollopen fd pd in
      if is_blocked d.wg || is_blocked d.rg
      then throws
      else if errno == 0
      then opened pd c'
      else failed errno (free pd c')

  -- `poll_runtime_pollOpen`
  pub poll_open : ℕ → PollCache → Opened
  poll_open fd c = elim (alloc pd_size c) [ none ↦ nil_pointer | some (pd, c') ↦ open_at fd pd c' ]
