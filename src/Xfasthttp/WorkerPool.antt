-- ===== src/Xfasthttp/WorkerPool.antt =====
-- xfasthttp/workerpool.go: the workers that wait for a connection, and what the methods of the pool do
-- to them under the lock. A worker's channel has the worker's number; times are nanoseconds since
-- some moment before all of them.
pub mod Search
pub mod Clean
pub mod Outcome
mod Tests
use srcrd.Prelude.{
  ℕ, zero, suc, ◌+◌, ◌-◌, ◌*◌, ◌/◌, ◌^◌, Bool, true, false, Option, none, some, List, [], ◌∷◌, ◌++◌,
  length, get_elem?, take, drop, ltb, ◌==◌, if◌then◌else◌,
}

pub record WorkerChan : Type 0 where
  pub id : ℕ
  pub last_use_time : ℕ

-- `workerPool`; `started` tells whether stopCh is there.
pub record WorkerPool : Type 0 where
  pub max_workers_count : ℕ
  pub max_idle_worker_duration : ℕ
  pub workers_count : ℕ
  pub must_stop : Bool
  pub ready : List WorkerChan
  pub started : Bool

-- `Start` without its goroutine; `none` is the panic of a second call.
pub start : WorkerPool → Option WorkerPool
start wp = if wp.started then none else some (record wp { started = true })

-- `Stop`: the workers that are told to stop, and the pool; `none` is the panic of a pool that has not
-- been started.
unfoldable pub stop : WorkerPool → Option (List WorkerChan × WorkerPool)
stop wp =
    if wp.started
    then some (wp.ready, record wp { started = false; ready = []; must_stop = true })
    else none

pub get_max_idle_worker_duration : WorkerPool → ℕ
get_max_idle_worker_duration wp =
    if wp.max_idle_worker_duration == 0 then 10 * 10 ^ 9 else wp.max_idle_worker_duration

-- The binary search of `clean` on fuel, where `hi` is `r + 1`. `none` is a read out of the slice, or
-- a loop that goes on.
pub search_loop : List WorkerChan → ℕ → ℕ → ℕ → ℕ → Option ℕ
search_loop ready critical zero l hi = none
search_loop ready critical (suc fuel) l hi =
    let mid = (l + hi - 1) / 2 in
    let up = search_loop ready critical fuel (mid + 1) hi in
    let down = search_loop ready critical fuel l mid in
    if ltb l hi
    then (elim (get_elem? ready mid) [
      | none ↦ none
      | some w ↦ if ltb w.last_use_time critical then up else down
    ])
    else some hi

-- The slices before and from the index that the search found.
pub cut_at : Option ℕ → WorkerPool → Option (List WorkerChan × WorkerPool)
cut_at none wp = none
cut_at (some i) wp = some (take i wp.ready, record wp { ready = drop i wp.ready })

pub critical_time : ℕ → WorkerPool → ℕ
critical_time now wp = now - get_max_idle_worker_duration wp

-- `clean` at the time `now`: the workers that are told to stop, and the pool.
pub clean : ℕ → WorkerPool → Option (List WorkerChan × WorkerPool)
unfolding cut_at
clean now wp =
    cut_at (search_loop wp.ready (critical_time now wp) (suc (length wp.ready)) 0 (length wp.ready))
      wp

-- The last of the ready workers, and the others.
unfoldable pub pop_ready : List WorkerChan → Option (WorkerChan × List WorkerChan)
pop_ready [] = none
pop_ready (w ∷ []) = some (w, [])
pop_ready (w ∷ x ∷ ws) = elim (pop_ready (x ∷ ws)) [
  | none ↦ none
  | some (last, rest) ↦ some (last, w ∷ rest)
]

-- What `getCh` finds: a worker that is ready, leave for a new one, or neither.
pub data Found : Type 0 where
  reuse : WorkerChan → Found
  create refuse : Found

-- The part of `getCh` under the lock.
unfoldable pub get_ch : WorkerPool → Found × WorkerPool
unfolding pop_ready
get_ch wp = elim (pop_ready wp.ready) [
  | some (ch, rest) ↦ (reuse ch, record wp { ready = rest })
  | none ↦
      if ltb wp.workers_count wp.max_workers_count
      then (create, record wp { workers_count = wp.workers_count + 1 })
      else (refuse, wp)
]

-- `release` at the time `now`: whether the worker goes on, and the pool.
unfoldable pub release : ℕ → ℕ → WorkerPool → Bool × WorkerPool
release id now wp =
    if wp.must_stop
    then (false, wp)
    else (true, record wp { ready = wp.ready ++ (record { id = id; last_use_time = now } ∷ []) })

-- The end of `workerFunc`.
unfoldable pub leave : WorkerPool → WorkerPool
leave wp = record wp { workers_count = wp.workers_count - 1 }
