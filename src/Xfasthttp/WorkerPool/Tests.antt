-- ===== src/Xfasthttp/WorkerPool/Tests.antt =====
-- Runs of `clean` of xfasthttp/workerpool.go.
use srcrd.Prelude.{ℕ, ◌≤◌, ◌<◌, ◌≡◌, refl, some, [], ◌∷◌, false, true, arith}
use srcrd.Xfasthttp.WorkerPool.{
  WorkerChan, WorkerPool, get_max_idle_worker_duration, search_loop, critical_time, clean,
}
use srcrd.Xfasthttp.WorkerPool.Search.{All}
use srcrd.Xfasthttp.WorkerPool.Clean.{Cleaned, clean-IsSorted}

abbrev worker : ℕ → ℕ → WorkerChan
worker id t = record { id = id; last_use_time = t }

abbrev three_ready : WorkerPool
three_ready = record {
  max_workers_count = 10;
  max_idle_worker_duration = 20;
  workers_count = 3;
  must_stop = false;
  ready = worker 4 10 ∷ worker 2 30 ∷ worker 7 31 ∷ [];
  started = true;
}

-- At the time 51 the critical time is 31: the workers before it go, and the one at it stays.
cleans_two :
    clean 51 three_ready
    ≡ some (worker 4 10 ∷ worker 2 30 ∷ [], record three_ready { ready = worker 7 31 ∷ [] })
unfolding clean search_loop critical_time get_max_idle_worker_duration
cleans_two = refl

clean-IsSorted_example :
    (c : Cleaned three_ready (clean 51 three_ready)) × All
      (λ w. w.last_use_time < critical_time 51 three_ready)
      c.old
    × All (λ w. critical_time 51 three_ready ≤ w.last_use_time) c.kept
clean-IsSorted_example = clean-IsSorted 51 three_ready (omega arith)
