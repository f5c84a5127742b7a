-- ===== src/Xsync/Pool.antt =====
-- xsync/pool.go and xsync/pool_cleanup.go: the object pool with a part for each processor, and the
-- cleanup at a garbage collection. The processor that a goroutine is pinned to and GOMAXPROCS come
-- from the Go runtime: they are arguments. Each method runs as one goroutine runs it.
pub mod Amount
pub mod Steal
pub mod Conserve
pub mod Takes
pub mod Gets
pub mod Cleanup
mod Tests
use srcrd.Prelude.{
  ℕ, zero, suc, ◌+◌, ◌%◌, Bool, true, false, Option, none, some, List, [], ◌∷◌, ◌++◌, length,
  get_or, set, replicate, ltb, leb, if◌then◌else◌,
}
use srcrd.Threads.{assign}
use srcrd.Xsync.PoolQueue.{Value, nil, item}
use srcrd.Xsync.PoolChain
use srcrd.Xsync.PoolChain.{PoolChain}

-- `poolLocal`; the padding has no meaning.
pub record PoolLocal : Type 0 where
  pub private : Value
  pub shared : PoolChain

abbrev pub fresh : PoolLocal
fresh = record { private = nil; shared = [] }

-- `Pool`. A nil array is the empty list. `New` is nil or gives a value.
pub record Pool : Type 0 where
  pub local : List PoolLocal
  pub local_size : ℕ
  pub victim : List PoolLocal
  pub victim_size : ℕ
  pub new : Option Value

-- The pools of a program by their addresses, with `allPools` and `oldPools`.
pub record World : Type 0 where
  pub pool : ℕ → Pool
  pub all_pools : List ℕ
  pub old_pools : List ℕ

abbrev pub is_nil : Value → Bool
is_nil nil = true
is_nil (item x) = false

abbrev pub is_none : List PoolLocal → Bool
is_none [] = true
is_none (l ∷ ls) = false

-- `indexLocal`
abbrev pub index_local : List PoolLocal → ℕ → PoolLocal
index_local ls i = get_or ls i fresh

-- The array that `pinSlow` makes for `procs` processors; an older one is lost.
pub pin_slow : ℕ → Pool → Pool
pin_slow procs p = record p { local = replicate procs fresh; local_size = procs }

-- `pin` on processor `pid`: the pool afterwards, with its part for `pid` in place.
pub pin : ℕ → ℕ → Pool → Pool
pin pid procs p = if ltb pid p.local_size then p else pin_slow procs p

-- `pin` with `allPools`, where `pinSlow` enters a pool that had no array.
pub pin_world : ℕ → ℕ → ℕ → World → World
pin_world id pid procs w =
    let p = w.pool id in
    record w {
      pool = assign w.pool id (pin pid procs p);
      all_pools =
          if ltb pid p.local_size
          then w.all_pools
          else if is_none p.local
          then w.all_pools ++ (id ∷ [])
          else w.all_pools;
    }

-- `Put`, pinned: into `private` if that is free, else into `shared`.
put_local : Value → PoolLocal → PoolLocal
put_local x l =
    if is_nil l.private
    then record l { private = x }
    else record l { shared = PoolChain.push_head x l.shared }

pub put : ℕ → ℕ → Value → Pool → Pool
unfolding put_local
put pid procs nil p = p
put pid procs (item x) p =
    let q = pin pid procs p in
    record q { local = set q.local pid (put_local (item x) (index_local q.local pid)) }

-- What a pop gives for the first result: nil if there is nothing.
abbrev pub value_or_nil : Option Value → Value
value_or_nil none = nil
value_or_nil (some x) = x

-- The loops of `getSlow`: `n` rounds of `popTail` on the parts from `start` on, modulo `size`.
pub steal : ℕ → ℕ → ℕ → List PoolLocal → Value × List PoolLocal
steal zero start size ls = (nil, ls)
steal (suc n) start size ls =
    let i = start % size in
    let l = index_local ls i in
    let (out, shared) = PoolChain.pop_tail l.shared in
    let ls' = set ls i (record l { shared = shared }) in
    let later = steal n (start + 1) size ls' in
    elim (value_or_nil out) [ item x ↦ (item x, ls') | nil ↦ later ]

-- The last part of `getSlow`, over the shared parts of the victim.
pub steal_victim : ℕ → Pool → Value × Pool
steal_victim pid p =
    let (x, ls) = steal p.victim_size pid p.victim_size p.victim in
    if is_nil x
    then (nil, record p { victim = ls; victim_size = 0 })
    else (x, record p { victim = ls })

-- The part of `getSlow` on the victim of the last cleanup.
pub get_victim : ℕ → Pool → Value × Pool
get_victim pid p =
    let l = index_local p.victim pid in
    if leb p.victim_size pid
    then (nil, p)
    else if is_nil l.private
    then steal_victim pid p
    else (l.private, record p { victim = set p.victim pid (record l { private = nil }) })

pub get_slow : ℕ → Pool → Value × Pool
get_slow pid p =
    let (x, ls) = steal p.local_size (pid + 1) p.local_size p.local in
    let q = record p { local = ls } in if is_nil x then get_victim pid q else (x, q)

-- The own part of the processor: `private`, and then the head of `shared`.
pub take_local : PoolLocal → Value × PoolLocal
take_local l =
    if is_nil l.private
    then (let (out, shared) = PoolChain.pop_head l.shared in
        (value_or_nil out, record { private = nil; shared = shared }))
    else (l.private, record l { private = nil })

-- `Get` up to the call of `New`.
pub take : ℕ → ℕ → Pool → Value × Pool
take pid procs p =
    let q = pin pid procs p in
    let (x, l) = take_local (index_local q.local pid) in
    let q' = record q { local = set q.local pid l } in if is_nil x then get_slow pid q' else (x, q')

pub get : ℕ → ℕ → Pool → Value × Pool
get pid procs p =
    let (x, q) = take pid procs p in if is_nil x then (value_or_nil q.new, q) else (x, q)

-- The two loops of `poolCleanup`.
pub drop_victims : List ℕ → (ℕ → Pool) → ℕ → Pool
drop_victims [] f = f
drop_victims (i ∷ is) f =
    drop_victims is (assign f i (record (f i) { victim = []; victim_size = 0 }))

pub retire : List ℕ → (ℕ → Pool) → ℕ → Pool
retire [] f = f
retire (i ∷ is) f = retire is (
    assign f i (record (f i) {
      local = [];
      local_size = 0;
      victim = (f i).local;
      victim_size = (f i).local_size;
    }))

pub pool_cleanup : World → World
pool_cleanup w = record {
  pool = retire w.all_pools (drop_victims w.old_pools w.pool);
  all_pools = [];
  old_pools = w.all_pools;
}
