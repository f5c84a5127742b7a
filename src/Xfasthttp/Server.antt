-- ===== src/Xfasthttp/Server.antt =====
-- xfasthttp/server.go with the workers of xfasthttp/workerpool.go: the acceptor, the goroutine that
-- cleans, and the goroutines of the workers, which interleave between their critical sections, their
-- channel operations and their atomic accesses. A listener gives connections from outside.
pub mod Inv
pub mod Steps
pub mod Valid
pub mod Reachable
pub mod Safety
mod Tests
use srcrd.Prelude.{
  ℕ, zero, suc, ◌+◌, ◌-◌, ◌*◌, ◌%◌, ◌^◌, ◌<◌, ◌≡◌, Bool, true, false, Option, none, some, List, [],
  ◌∷◌, ◌++◌, ◌==◌, if◌then◌else◌,
}
use srcrd.Threads.{assign}
use srcrd.Xfasthttp.WorkerPool
use srcrd.Xfasthttp.WorkerPool.{
  WorkerChan, WorkerPool, reuse, create, refuse, get_ch, release, leave, clean,
}

-- Where a worker's goroutine stands, and what is in its channel.
pub data Status : Type 0 where
  absent : Status  -- no goroutine
  idle : Status  -- waits, and is in `ready`
  chosen : Status  -- waits, and the acceptor is about to send it a connection
  given : Status  -- has a connection in its channel
  serving : Status  -- in serveConn, after the access to `concurrency`
  cleaning : Status  -- in serveConnCleanup, between its two accesses
  served : Status  -- after WorkerFunc, before `release`
  obsolete : Status  -- waits, or is about to, with a nil on the way to it
  leaving : Status  -- has left the loop

-- Where the goroutine of `Serve` stands.
pub data Acceptor : Type 0 where
  accepting : Acceptor
  accepted : Acceptor  -- has a connection, and has counted it
  handing : (w : ℕ) → Acceptor  -- in `ch.ch <- c`
  refused : Acceptor  -- `wp.Serve` returned false
  closing : Acceptor  -- after the listener's error and `wp.Stop`
  returned : Acceptor
  unwinding : Acceptor  -- has panicked, before the deferred access
  panicked : Acceptor

-- `s.open` and `s.concurrency` are bit patterns of 32 bits.
pub record System : Type 0 where
  pub wp : WorkerPool
  pub status : ℕ → Status
  pub acceptor : Acceptor
  pub open_conns : ℕ
  pub concurrency : ℕ

abbrev pub add32 : ℕ → ℕ → ℕ
add32 a b = (a + b) % 2 ^ 32

abbrev pub minus_one : ℕ
minus_one = 2 ^ 32 - 1

-- The workers of a list are told to stop.
pub dismiss : List WorkerChan → (ℕ → Status) → ℕ → Status
dismiss [] f = f
dismiss (w ∷ ws) f = dismiss ws (assign f w.id obsolete)

-- `Serve` up to its loop.
pub serving_pool : WorkerPool
serving_pool = record {
  max_workers_count = 256 * 1024;
  max_idle_worker_duration = 0;
  workers_count = 0;
  must_stop = false;
  ready = [];
  started = true;
}

unfoldable pub init : System
unfolding serving_pool
init = record {
  wp = serving_pool;
  status = λ _. absent;
  acceptor = accepting;
  open_conns = 1;
  concurrency = 0;
}

-- `n` is above the numbers of all workers of the run.
module _ (n : ℕ) where
  -- One step of one goroutine.
  pub data Step (s : System) : System → Type 0 where
    accept :
        s.acceptor ≡ accepting
        → Step s (record s { acceptor = accepted; open_conns = add32 s.open_conns 1 })
    serve_reuse :
        {ch : WorkerChan} {wp : WorkerPool}
        → s.acceptor ≡ accepted
        → get_ch s.wp ≡ (reuse ch, wp)
        → Step s
            (record s { wp = wp; acceptor = handing ch.id; status = assign s.status ch.id chosen })
    serve_create :
        {w : ℕ} {wp : WorkerPool}
        → s.acceptor ≡ accepted
        → get_ch s.wp ≡ (create, wp)
        → w < n
        → s.status w ≡ absent
        → Step s (record s { wp = wp; acceptor = handing w; status = assign s.status w chosen })
    serve_refuse :
        {wp : WorkerPool}
        → s.acceptor ≡ accepted
        → get_ch s.wp ≡ (refuse, wp)
        → Step s (record s { wp = wp; acceptor = refused })
    send :
        {w : ℕ}
        → s.acceptor ≡ handing w
        → Step s (record s { acceptor = accepting; status = assign s.status w given })
    refuse_panic :
        s.acceptor ≡ refused
        → Step s (record s { acceptor = unwinding; open_conns = add32 s.open_conns minus_one })
    serve_unwind :
        s.acceptor ≡ unwinding
        → Step s (record s { acceptor = panicked; open_conns = add32 s.open_conns minus_one })
    listener_error :
        {old : List WorkerChan} {wp : WorkerPool}
        → s.acceptor ≡ accepting
        → WorkerPool.stop s.wp ≡ some (old, wp)
        → Step s (record s { wp = wp; acceptor = closing; status = dismiss old s.status })
    serve_return :
        s.acceptor ≡ closing
        → Step s (record s { acceptor = returned; open_conns = add32 s.open_conns minus_one })
    receive :
        {w : ℕ}
        → s.status w ≡ given
        → Step s
            (record s { status = assign s.status w serving; concurrency = add32 s.concurrency 1 })
    close_open :
        {w : ℕ}
        → s.status w ≡ serving
        → Step s (record s {
          status = assign s.status w cleaning;
          open_conns = add32 s.open_conns minus_one;
        })
    close_concurrency :
        {w : ℕ}
        → s.status w ≡ cleaning
        → Step s (record s {
          status = assign s.status w served;
          concurrency = add32 s.concurrency minus_one;
        })
    release_ready :
        {w : ℕ} {wp : WorkerPool} (now : ℕ)
        → s.status w ≡ served
        → release w now s.wp ≡ (true, wp)
        → Step s (record s { wp = wp; status = assign s.status w idle })
    release_stop :
        {w : ℕ} {wp : WorkerPool} (now : ℕ)
        → s.status w ≡ served
        → release w now s.wp ≡ (false, wp)
        → Step s (record s { wp = wp; status = assign s.status w leaving })
    clean_idle :
        {old : List WorkerChan} {wp : WorkerPool} (now : ℕ)
        → clean now s.wp ≡ some (old, wp)
        → Step s (record s { wp = wp; status = dismiss old s.status })
    receive_nil :
        {w : ℕ} → s.status w ≡ obsolete → Step s (record s { status = assign s.status w leaving })
    leave_pool :
        {w : ℕ}
        → s.status w ≡ leaving
        → Step s (record s { wp = leave s.wp; status = assign s.status w absent })

  pub data Reach : System → Type 0 where
    start : Reach init
    after : {s t : System} → Reach s → Step s t → Reach t
