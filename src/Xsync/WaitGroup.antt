-- ===== src/Xsync/WaitGroup.antt =====
-- xsync/waitgroup.go: the wait group, an atomic access at a time, with any number of threads
-- interleaved. The semaphore is that of `Xsync.Sema`. The two layouts of `state1` hold the same two
-- values, so that the model has them as fields.
pub mod Inv
pub mod Moves
pub mod Reachable
pub mod Safety
mod Tests
use srcrd.Prelude.{
  ℕ, zero, suc, ◌+◌, ◌-◌, ◌*◌, ◌/◌, ◌%◌, ◌^◌, ◌≤◌, ◌<◌, ◌≡◌, ◌≢◌, ◌⊎◌, Bool, not, ◌&&◌, ◌||◌, some,
  ltb, leb, ◌==◌, if◌then◌else◌,
}
use srcrd.Threads.{assign, tally}
use srcrd.Xsync.Sema.{Semaphore}

-- `WaitGroup`: the 64-bit state, and the count of the semaphore.
pub record Shared : Type 0 where
  pub state : ℕ
  pub sema_count : ℕ

abbrev pub counter : ℕ → ℕ
counter state = state / 2 ^ 32

abbrev pub waiter : ℕ → ℕ
waiter state = state % 2 ^ 32

-- `atomic.AddUint64(statep, uint64(delta)<<32)` for the bit pattern `delta` of an int.
abbrev pub add_delta : ℕ → ℕ → ℕ
add_delta state delta = (state + delta % 2 ^ 32 * 2 ^ 32) % 2 ^ 64

abbrev pub is_positive : ℕ → Bool
is_positive delta = ltb 0 delta && ltb delta (2 ^ 63)

-- What `Add` does after its first access, which gave `state`.
pub data Outcome : Type 0 where
  negative misuse returns wakes : Outcome

abbrev pub outcome : ℕ → ℕ → Outcome
outcome delta state =
    if leb (2 ^ 31) (counter state)
    then negative
    else if not (waiter state == 0) && is_positive delta && (counter state == delta % 2 ^ 32)
    then misuse
    else if ltb 0 (counter state) || (waiter state == 0)
    then returns
    else wakes

-- Where a thread stands. A thread outside owes the counter the units that it is to take away.
pub data Pc : Type 0 where
  outside : (u : ℕ) → Pc
  checking : (u state : ℕ) → Pc  -- in Add, before the second look at the state
  releasing : (u w : ℕ) → Pc  -- in Add, with `w` rounds of the loop to go
  loaded : (state : ℕ) → Pc  -- in Wait, before the compare-and-swap
  waiting : Pc  -- in Wait, at the semaphore
  woken : Pc  -- in Wait, before the last look at the state
  returned : Pc  -- after Wait
  panicked : Pc

-- The bit pattern of the delta that takes what a thread owes from `u` to `v`.
abbrev pub delta_of : ℕ → ℕ → ℕ
delta_of u v = (v + 2 ^ 64 - u) % 2 ^ 64

-- How a thread may call Add: it takes no more away than it owes; it adds only while it owes something,
-- so that the counter is not zero, and not so much that the counter passes its largest value.
pub record MayAdd (m : Shared) (u v : ℕ) : Type 0 where
  pub owing : 0 < u
  pub changes : u ≢ v
  pub fits : counter m.state + v < 2 ^ 31 + u

module _ (sema : Semaphore) where
  -- One atomic access of one thread.
  pub data Move (m : Shared) : Pc → Shared → Pc → Type 0 where
    add_negative :
        {u v : ℕ}
        → MayAdd m u v
        → outcome (delta_of u v) (add_delta m.state (delta_of u v)) ≡ negative
        → Move m (outside u) (record m { state = add_delta m.state (delta_of u v) }) panicked
    add_misuse :
        {u v : ℕ}
        → MayAdd m u v
        → outcome (delta_of u v) (add_delta m.state (delta_of u v)) ≡ misuse
        → Move m (outside u) (record m { state = add_delta m.state (delta_of u v) }) panicked
    add_returns :
        {u v : ℕ}
        → MayAdd m u v
        → outcome (delta_of u v) (add_delta m.state (delta_of u v)) ≡ returns
        → Move m (outside u) (record m { state = add_delta m.state (delta_of u v) }) (outside v)
    add_wakes :
        {u v : ℕ}
        → MayAdd m u v
        → outcome (delta_of u v) (add_delta m.state (delta_of u v)) ≡ wakes
        → Move m
            (outside u)
            (record m { state = add_delta m.state (delta_of u v) })
            (checking v (add_delta m.state (delta_of u v)))
    check_same :
        {u state : ℕ}
        → m.state ≡ state
        → Move m (checking u state) (record m { state = 0 }) (releasing u (waiter state))
    check_other : {u state : ℕ} → m.state ≢ state → Move m (checking u state) m panicked
    release_one :
        {u w k : ℕ}
        → k ≡ suc w
        → Move m
            (releasing u k)
            (record m { sema_count = sema.release m.sema_count })
            (releasing u w)
    release_end : {u k : ℕ} → k ≡ 0 → Move m (releasing u k) m (outside u)
    wait_zero : {u : ℕ} → u ≡ 0 → counter m.state ≡ 0 → Move m (outside u) m returned
    wait_load : {u : ℕ} → u ≡ 0 → counter m.state ≢ 0 → Move m (outside u) m (loaded m.state)
    swap_done :
        {state : ℕ}
        → m.state ≡ state
        → Move m (loaded state) (record m { state = (state + 1) % 2 ^ 64 }) waiting
    swap_lost : {state : ℕ} → m.state ≢ state → Move m (loaded state) m (outside 0)
    acquire :
        {t : ℕ}
        → sema.acquire m.sema_count ≡ some t
        → Move m waiting (record m { sema_count = t }) woken
    wake_returns : m.state ≡ 0 → Move m woken m returned
    wake_reused : m.state ≢ 0 → Move m woken m panicked

pub record System : Type 0 where
  pub mem : Shared
  pub pc : ℕ → Pc

-- After the calls of Add that come before all calls of Wait: thread `i` owes `units i`.
abbrev pub init : ℕ → (ℕ → ℕ) → System
init n units = record {
  mem = record { state = tally (λ u. u) n units * 2 ^ 32; sema_count = 0 };
  pc = λ i. outside (units i);
}

module _ (sema : Semaphore) (n : ℕ) (units : ℕ → ℕ) where
  pub data Step (s : System) : System → Type 0 where
    turn :
        (i : ℕ) {m : Shared} {p : Pc}
        → i < n
        → Move sema s.mem (s.pc i) m p
        → Step s (record { mem = m; pc = assign s.pc i p })

  pub data Reach : System → Type 0 where
    start : Reach (init n units)
    after : {s t : System} → Reach s → Step s t → Reach t
