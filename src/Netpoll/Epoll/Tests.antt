-- ===== src/Netpoll/Epoll/Tests.antt =====
-- A poll of netpoll/netpoll_epoll.go, and each theorem at a run.
use srcrd.Prelude.{ℕ, ◌≡◌, refl, true, false, List, [], ◌∷◌, ◌==◌, if◌then◌else◌}
use srcrd.Netpoll.Epoll.{
  Mask, desc, EpollEvent, State, ready_desc, each_event, interrupted, came, Outcome, polled, retry,
  netpoll,
}
use srcrd.Netpoll.Epoll.Breaks.{readable}

-- Goroutine 64 waits to read from descriptor 0, and 96 to write to it; nobody waits for the others.
abbrev two_wait : State
two_wait = record {
  descs = λ pd.
      if pd == 0
      then record { everr = false; rg = 64; wg = 96 }
      else record { everr = false; rg = 0; wg = 0 };
  wake_sig = 1;
  pipe = 1;
}

-- A hang-up, which makes a descriptor ready for both.
abbrev hang_up : Mask
hang_up = record {
  epollin = false;
  epollout = false;
  epollrdhup = false;
  epollhup = true;
  epollerr = false;
  other = false;
}

abbrev events : List EpollEvent
events = record { events = hang_up; data_of = desc 0 } ∷ readable ∷ []

abbrev run_of : Outcome → List ℕ
run_of (polled s run) = run
run_of _ = []

both_run : run_of (netpoll true 0 (interrupted ∷ came events ∷ []) two_wait) ≡ 96 ∷ 64 ∷ []
unfolding netpoll retry each_event ready_desc
both_run = refl
