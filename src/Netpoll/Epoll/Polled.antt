-- ===== src/Netpoll/Epoll/Polled.antt =====
-- What a poll of netpoll/netpoll_epoll.go gives.
use srcrd.Prelude.{
  ℕ, ◌+◌, ◌-◌, ◌*◌, ◌^◌, ◌≤◌, ◌<◌, ◌≡◌, Bool, true, ◌&&◌, List, [], min, ltb, if◌then◌else◌, arith,
}
use srcrd.Threads.{tally}
use srcrd.Netpoll.Wait.{pd_ready}
use srcrd.Netpoll.Cache.Opens.{count}
use srcrd.Netpoll.Epoll.{EpollEvent, State, waitms, Outcome, polled}
use srcrd.Netpoll.Epoll.Events.{to_read, to_write, some_ready, blocks}

-- `waitms` is positive as an int32 for a positive delay.
abbrev pub is_positive : ℕ → Bool
is_positive delay = ltb 0 delay && ltb delay (2 ^ 63)

-- For a positive delay, epoll_wait is told to wait a millisecond at least and 10 ^ 9 of them at most; less
-- than a millisecond longer than the delay; and, up to the cap, less than a millisecond shorter.
pub waitms-bounds :
    (delay : ℕ)
    → is_positive delay ≡ true
    → (1 ≤ waitms delay)
      × (waitms delay ≤ 10 ^ 9)
      × (waitms delay * 10 ^ 6 < delay + 10 ^ 6)
      × (min delay (10 ^ 15 - 1) < (waitms delay + 1) * 10 ^ 6)
waitms-bounds delay h = ground arith

-- The events that a poll sees that was interrupted `k` times: one that waits for a time gives up.
abbrev pub seen : ℕ → ℕ → List EpollEvent → List EpollEvent
seen delay k evs = if is_positive delay && ltb 0 k then [] else evs

-- What a poll gives.
pub record Gave (n : ℕ) (evs : List EpollEvent) (s : State) (out : Outcome) : Type 0 where
  pub last : State
  pub run : List ℕ
  pub returns : out ≡ polled last run
  pub kept :
      (g : ℕ) → 2 < g → tally (blocks g) n last.descs + count g run ≡ tally (blocks g) n s.descs
  pub rg :
      (pd : ℕ)
      → (last.descs pd).rg ≡ (if some_ready to_read pd evs then pd_ready else (s.descs pd).rg)
  pub wg :
      (pd : ℕ)
      → (last.descs pd).wg ≡ (if some_ready to_write pd evs then pd_ready else (s.descs pd).wg)
