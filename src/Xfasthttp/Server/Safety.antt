-- ===== src/Xfasthttp/Server/Safety.antt =====
-- What holds of the workers and the counters of xfasthttp/server.go and workerpool.go in every
-- reachable state.
use srcrd.Prelude.{ℕ, ◌+◌, ◌*◌, ◌≤◌, ◌<◌, ◌≡◌, ◌⊎◌, inl, inr, true, false, ◌∙◌, arith}
use srcrd.Threads.{tally, tally_mono, tally-eq-zero}
use srcrd.Xfasthttp.Server.{Status, Acceptor, absent, idle, chosen, handing, System, Reach}
use srcrd.Xfasthttp.Server.Inv.{has, NoDup, alive, conns, busy, own}
use srcrd.Xfasthttp.Server.Reachable.{Reach-IsValid}

conns-le-alive : (p : Status) → conns p ≤ alive p
conns-le-alive p = ground arith

busy-le-alive : (p : Status) → busy p ≤ alive p
busy-le-alive p = ground arith

own-le : (a : Acceptor) → own a ≤ 2
own-le a = ground arith

module _ {n : ℕ} {s : System} (r : Reach n s) where
  -- In a reachable state `workersCount` is the number of worker goroutines, at most 256 * 1024;
  -- `open` counts the connections between the acceptor and the end of their worker, with the wait of
  -- `Serve` itself, and `concurrency` the calls of serveConn, and neither wraps around.
  pub counts_exact :
      (s.wp.workers_count ≡ tally alive n s.status)
      × (s.wp.workers_count ≤ 256 * 1024)
      × (s.open_conns ≡ own s.acceptor + tally conns n s.status)
      × (s.concurrency ≡ tally busy n s.status)
  counts_exact =
      let v = Reach-IsValid r in
      omega (
        arith,
        v.numbers.counted,
        v.numbers.bound,
        v.numbers.opened,
        v.numbers.served,
        v.sized,
        tally_mono conns alive conns-le-alive n s.status,
        tally_mono busy alive busy-le-alive n s.status,
        own-le s.acceptor,
      )

  -- In a reachable state no worker is twice in `ready`, those in `ready` are idle, and the acceptor
  -- hands its connection to a worker that waits, is not in `ready`, and is handed no other.
  pub handed_once :
      NoDup s.wp.ready
      × ((w : ℕ) → has w s.wp.ready ≡ true → s.status w ≡ idle)
      × ((w : ℕ) → s.acceptor ≡ handing w → (s.status w ≡ chosen) × (has w s.wp.ready ≡ false))
      × ((w : ℕ) → s.status w ≡ chosen → s.acceptor ≡ handing w)
  handed_once =
      let v = (Reach-IsValid r).lists in
      (
        v.unique,
        λ w h. ground (arith, v.listed w),
        λ w h. ground (arith, v.hand w, v.listed w),
        λ w h. ground (arith, v.hand w),
      )

  -- In a reachable state after `Stop`, if every worker is idle or gone then none is left.
  pub stopped_drained :
      s.wp.must_stop ≡ true
      → ((w : ℕ) → w < n → (s.status w ≡ absent) ⊎ (s.status w ≡ idle))
      → s.wp.workers_count ≡ 0
  unfolding has
  stopped_drained h quiet =
      let v = Reach-IsValid r in
      let none_ready = v.lists.quiet h in
      v.numbers.counted
      ∙ tally-eq-zero alive n s.status (λ w lt. elim (quiet w lt) [
        | inl e ↦ ground arith
        | inr e ↦ absurd (ground (arith, v.lists.listed w))
      ])
