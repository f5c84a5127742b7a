-- ===== src/Netpoll/Epoll.antt =====
-- netpoll/netpoll_epoll.go: `netpoll` and `netpollBreak`, with `netpollready` and `netpollunblock` of
-- netpoll/netpoll3.go as one thread runs them alone. What the kernel answers to epoll_wait and to write
-- comes from outside, as lists of answers. A goroutine is the number of its address, above pdWait.
pub mod Events
pub mod Polled
pub mod Breaks
mod Tests
use srcrd.Prelude.{
  ℕ, zero, suc, ◌+◌, ◌-◌, ◌/◌, ◌%◌, ◌^◌, Bool, true, false, not, ◌&&◌, ◌||◌, Option, none, some,
  List, [], ◌∷◌, ltb, leb, ◌==◌, if◌then◌else◌,
}
use srcrd.Threads.{assign}
use srcrd.Netpoll.Wait.{pd_ready, pd_wait, new_value}

-- The bits of `events` that the code names, and whether there is another.
pub record Mask : Type 0 where
  pub epollin : Bool
  pub epollout : Bool
  pub epollrdhup : Bool
  pub epollhup : Bool
  pub epollerr : Bool
  pub other : Bool

-- `ev.data`: a descriptor, or the read end of the pipe of netpollBreak.
pub data EventData : Type 0 where
  desc : ℕ → EventData
  break_rd : EventData

-- `epollevent`
pub record EpollEvent : Type 0 where
  pub events : Mask
  pub data_of : EventData

-- `pollDesc`: what a poll reads and writes of it.
pub record PollDesc : Type 0 where
  pub everr : Bool
  pub rg : ℕ
  pub wg : ℕ

-- The descriptors, `netpollWakeSig`, and the bytes in the pipe.
pub record State : Type 0 where
  pub descs : ℕ → PollDesc
  pub wake_sig : ℕ
  pub pipe : ℕ

-- `ev.events == 0`, `== _EPOLLERR` and `== _EPOLLIN`
abbrev pub is_zero : Mask → Bool
is_zero m = not (m.epollin || m.epollout || m.epollrdhup || m.epollhup || m.epollerr || m.other)

abbrev pub is_err : Mask → Bool
is_err m = m.epollerr && not (m.epollin || m.epollout || m.epollrdhup || m.epollhup || m.other)

abbrev pub is_in : Mask → Bool
is_in m = m.epollin && not (m.epollout || m.epollrdhup || m.epollhup || m.epollerr || m.other)

-- `mode`
abbrev pub mode_of : Mask → ℕ
mode_of m =
    (if m.epollin || m.epollrdhup || m.epollhup || m.epollerr then b'r' else 0)
    + (if m.epollout || m.epollhup || m.epollerr then b'w' else 0)

-- `netpollunblock` on a semaphore: its new value, and the goroutine to run or nil.
abbrev pub netpollunblock : ℕ → Bool → ℕ × ℕ
netpollunblock old ioready =
    if old == pd_ready
    then (old, 0)
    else if (old == 0) && not ioready
    then (old, 0)
    else (new_value ioready, if old == pd_wait then 0 else old)

-- `toRun.push`, but for nil.
abbrev pub push : ℕ → List ℕ → List ℕ
push g to_run = if g == 0 then to_run else g ∷ to_run

-- `netpollready`
abbrev pub netpollready : List ℕ → PollDesc → ℕ → PollDesc × List ℕ
netpollready to_run d mode =
    let (rg', r) =
      if (mode == b'r') || (mode == b'r' + b'w') then netpollunblock d.rg true else (d.rg, 0) in
    let (wg', w) =
      if (mode == b'w') || (mode == b'r' + b'w') then netpollunblock d.wg true else (d.wg, 0) in
    (record d { rg = rg'; wg = wg' }, push w (push r to_run))

-- A descriptor with an event: what the loop of `netpoll` does to it.
pub ready_desc : Mask → PollDesc → List ℕ → PollDesc × List ℕ
ready_desc m d to_run =
    if mode_of m == 0
    then (d, to_run)
    else netpollready to_run (record d { everr = is_err m }) (mode_of m)

-- The loop of `netpoll` over the events; none is a throw.
pub each_event : Bool → List EpollEvent → State → List ℕ → Option (State × List ℕ)
each_event blocks [] s to_run = some (s, to_run)
each_event blocks (ev ∷ evs) s to_run = elim (is_zero ev.events) [
  | true ↦ each_event blocks evs s to_run
  | false ↦ elim ev.data_of [
    | break_rd ↦
        let drained = record s { wake_sig = 0; pipe = s.pipe - 16 } in
        if not (is_in ev.events)
        then none
        else each_event blocks evs (if blocks then drained else s) to_run
    | desc pd ↦
        let (d, to_run') = ready_desc ev.events (s.descs pd) to_run in
        each_event blocks evs (record s { descs = assign s.descs pd d }) to_run'
  ]
]

-- `waitms` as an int32, for a delay of nanoseconds that is an int64.
abbrev pub waitms : ℕ → ℕ
waitms delay =
    if leb (2 ^ 63) delay
    then 2 ^ 32 - 1
    else if delay == 0
    then 0
    else if ltb delay (10 ^ 6)
    then 1
    else if ltb delay (10 ^ 15)
    then delay / 10 ^ 6 % 2 ^ 32
    else 10 ^ 9

-- An answer of epoll_wait.
pub data Answer : Type 0 where
  interrupted : Answer
  wait_failed : Answer
  came : List EpollEvent → Answer

-- The end of a poll, or an epoll_wait that has no answer yet.
pub data Outcome : Type 0 where
  polled : State → List ℕ → Outcome
  throws waits_on : Outcome

-- The loop from the label `retry` on.
pub retry : ℕ → List Answer → State → Outcome
retry delay [] s = waits_on
retry delay (interrupted ∷ answers) s =
    if ltb 0 (waitms delay) && ltb (waitms delay) (2 ^ 31)
    then polled s []
    else retry delay answers s
retry delay (wait_failed ∷ answers) s = throws
retry delay (came evs ∷ answers) s = elim (each_event (not (delay == 0)) evs s []) [
  | none ↦ throws
  | some (s', to_run) ↦ polled s' to_run
]

-- `netpoll`; `inited` says that `epfd` is not -1.
pub netpoll : Bool → ℕ → List Answer → State → Outcome
netpoll inited delay answers s = if inited then retry delay answers s else polled s []

-- An answer of the write to the pipe.
pub data Wrote : Type 0 where
  one_byte eintr eagain write_failed : Wrote

pub data Broke : Type 0 where
  broke : State → Broke
  break_throws writing : Broke

-- The loop of `netpollBreak`.
pub write_loop : List Wrote → State → Broke
write_loop [] s = writing
write_loop (one_byte ∷ answers) s = broke (record s { pipe = s.pipe + 1 })
write_loop (eintr ∷ answers) s = write_loop answers s
write_loop (eagain ∷ answers) s = broke s
write_loop (write_failed ∷ answers) s = break_throws

-- `netpollBreak`
pub netpoll_break : List Wrote → State → Broke
netpoll_break answers s =
    if s.wake_sig == 0 then write_loop answers (record s { wake_sig = 1 }) else broke s
