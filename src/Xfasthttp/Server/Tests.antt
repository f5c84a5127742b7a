-- ===== src/Xfasthttp/Server/Tests.antt =====
-- A run of xfasthttp/server.go with one worker, and each theorem at its end.
use srcrd.Prelude.{ℕ, zero, suc, ◌+◌, ◌*◌, ◌≤◌, ◌<◌, ◌≡◌, refl, ◌⊎◌, inl, true, false, arith}
use srcrd.Threads.{tally}
use srcrd.Xfasthttp.WorkerPool.{get_ch, release, pop_ready, stop, leave}
use srcrd.Xfasthttp.Server.{
  absent, idle, chosen, handing, System, dismiss, init, accept, serve_reuse, serve_create, send,
  listener_error, receive, close_open, close_concurrency, release_ready, receive_nil, leave_pool,
  Reach, start, after,
}
use srcrd.Xfasthttp.Server.Inv.{has, NoDup, alive, conns, busy, own}
use srcrd.Xfasthttp.Server.Safety.{counts_exact, handed_once, stopped_drained}

-- The worker has served a connection, and is ready again.
abbrev served_one : (s : System) × Reach 1 s
unfolding init get_ch pop_ready release
served_one = (
  _,
  after
      (after
        (after
          (after
            (after
              (after (after start (accept refl))
                (serve_create {w = 0} refl refl (omega arith) refl))
              (send refl))
            (receive {w = 0} refl))
          (close_open {w = 0} refl))
        (close_concurrency {w = 0} refl))
      (release_ready {w = 0} 5 refl refl),
)

-- It is handed the next connection.
abbrev handing_next : (s : System) × Reach 1 s
unfolding init get_ch pop_ready release
handing_next = (_, after (after served_one.1 (accept refl)) (serve_reuse refl refl))

-- Or the listener ends, and so does the worker.
abbrev drained : (s : System) × Reach 1 s
unfolding init get_ch pop_ready release stop dismiss leave
drained = (
  _,
  after (after (after served_one.1 (listener_error refl refl)) (receive_nil {w = 0} refl))
      (leave_pool {w = 0} refl),
)

counts_exact_example :
    let s = handing_next.0 in
    (s.wp.workers_count ≡ tally alive 1 s.status)
    × (s.wp.workers_count ≤ 256 * 1024)
    × (s.open_conns ≡ own s.acceptor + tally conns 1 s.status)
    × (s.concurrency ≡ tally busy 1 s.status)
counts_exact_example = counts_exact handing_next.1

two_open : handing_next.0.open_conns ≡ 2
unfolding init get_ch pop_ready release
two_open = refl

handed_once_example :
    let s = handing_next.0 in
    NoDup s.wp.ready
    × ((w : ℕ) → has w s.wp.ready ≡ true → s.status w ≡ idle)
    × ((w : ℕ) → s.acceptor ≡ handing w → (s.status w ≡ chosen) × (has w s.wp.ready ≡ false))
    × ((w : ℕ) → s.status w ≡ chosen → s.acceptor ≡ handing w)
handed_once_example = handed_once handing_next.1

drained_quiet : (w : ℕ) → w < 1 → (drained.0.status w ≡ absent) ⊎ (drained.0.status w ≡ idle)
unfolding init get_ch pop_ready release stop dismiss leave
drained_quiet zero h = inl refl
drained_quiet (suc w) h = absurd (omega arith)

drained_stop : drained.0.wp.must_stop ≡ true
unfolding init get_ch pop_ready release stop dismiss leave
drained_stop = refl

stopped_drained_example : drained.0.wp.workers_count ≡ 0
stopped_drained_example = stopped_drained drained.1 drained_stop drained_quiet
