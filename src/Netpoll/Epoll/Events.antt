-- ===== src/Netpoll/Epoll/Events.antt =====
-- The events of a poll of netpoll/netpoll_epoll.go: which goroutines they make runnable, and what they
-- leave in the semaphores.
use srcrd.Prelude.{
  ℕ, ◌+◌, ◌-◌, ◌<◌, ◌≡◌, refl, ap, ◌∙◌, inl, inr, Bool, true, false, ◌&&◌, ◌||◌, Option, some, List,
  [], ◌∷◌, ◌==◌, if◌then◌else◌, arith, Bool-cases, ==_iff,
}
use srcrd.Threads.{assign, tally, tally-assign}
use srcrd.Netpoll.Wait.{pd_ready}
use srcrd.Netpoll.Cache.Opens.{count}
use srcrd.Netpoll.Epoll.{
  Mask, EventData, desc, break_rd, EpollEvent, PollDesc, State, is_zero, is_err, is_in,
  netpollunblock, push, netpollready, ready_desc, each_event,
}

-- An event makes its descriptor ready to read, or to write: an error and a hang-up do both.
abbrev pub to_read : Mask → Bool
to_read m = m.epollin || m.epollrdhup || m.epollhup || m.epollerr

abbrev pub to_write : Mask → Bool
to_write m = m.epollout || m.epollhup || m.epollerr

abbrev pub is_for : ℕ → EventData → Bool
is_for pd (desc pd') = pd' == pd
is_for pd break_rd = false

-- Some event of the list makes `pd` ready in the sense of `way`.
unfoldable pub some_ready : (Mask → Bool) → ℕ → List EpollEvent → Bool
some_ready way pd [] = false
some_ready way pd (ev ∷ evs) = (is_for pd ev.data_of && way ev.events) || some_ready way pd evs

-- How many semaphores of a descriptor the goroutine `g` is blocked on.
abbrev pub blocks : ℕ → PollDesc → ℕ
blocks g d = (if d.rg == g then 1 else 0) + (if d.wg == g then 1 else 0)

-- An event for one of `n` descriptors, or a pipe that can be read and nothing else.
abbrev pub IsExpected : ℕ → EpollEvent → Type 0
IsExpected n ev = elim ev.data_of [ desc pd ↦ pd < n | break_rd ↦ is_in ev.events ≡ true ]

unfoldable pub AllExpected : ℕ → List EpollEvent → Type 0
AllExpected n [] = Unit
AllExpected n (ev ∷ evs) = IsExpected n ev × AllExpected n evs

-- One descriptor after one event.
record Readied (m : Mask) (d : PollDesc) (to_run : List ℕ) (out : PollDesc × List ℕ) : Type 0 where
  kept : (g : ℕ) → 2 < g → blocks g out.0 + count g out.1 ≡ blocks g d + count g to_run
  rg : out.0.rg ≡ (if to_read m then pd_ready else d.rg)
  wg : out.0.wg ≡ (if to_write m then pd_ready else d.wg)

-- The descriptor by which of the two ways it is ready.
abbrev ready_by : Bool → Bool → Bool → PollDesc → List ℕ → PollDesc × List ℕ
ready_by r w e d to_run =
    let mode = (if r then b'r' else 0) + (if w then b'w' else 0) in
    if mode == 0 then (d, to_run) else netpollready to_run (record d { everr = e }) mode

-- A semaphore and the goroutines to run, before and after.
unblock_kept :
    (g old : ℕ) (to_run : List ℕ)
    → 2 < g
    → (if (netpollunblock old true).0 == g then 1 else 0)
        + count g (push (netpollunblock old true).1 to_run)
      ≡ (if old == g then 1 else 0) + count g to_run
unfolding count
unblock_kept g old to_run h = ground arith

ready_by-kept :
    (r w e : Bool) (d : PollDesc) (to_run : List ℕ) (g : ℕ)
    → 2 < g
    → blocks g (ready_by r w e d to_run).0 + count g (ready_by r w e d to_run).1
      ≡ blocks g d + count g to_run
ready_by-kept true true e d to_run g h = omega (
  arith,
  unblock_kept g d.rg to_run h,
  unblock_kept g d.wg (push (netpollunblock d.rg true).1 to_run) h,
)
ready_by-kept true false e d to_run g h = omega (arith, unblock_kept g d.rg to_run h)
ready_by-kept false true e d to_run g h = omega (arith, unblock_kept g d.wg to_run h)
ready_by-kept false false e d to_run g h = refl

ready_desc-Readied :
    (m : Mask) (d : PollDesc) (to_run : List ℕ) → Readied m d to_run (ready_desc m d to_run)
unfolding ready_desc
ready_desc-Readied m d to_run = record {
  kept = ready_by-kept (to_read m) (to_write m) (is_err m) d to_run;
  rg = ground arith;
  wg = ground arith;
}

-- A list of events: what it does to the semaphores and gives to run.
pub record Collected (n : ℕ) (evs : List EpollEvent) (s : State) (to_run : List ℕ)
    (out : Option (State × List ℕ)) : Type 0 where
  pub last : State
  pub run : List ℕ
  pub returns : out ≡ some (last, run)
  pub kept :
      (g : ℕ)
      → 2 < g
      → tally (blocks g) n last.descs + count g run ≡ tally (blocks g) n s.descs + count g to_run
  pub rg :
      (pd : ℕ)
      → (last.descs pd).rg ≡ (if some_ready to_read pd evs then pd_ready else (s.descs pd).rg)
  pub wg :
      (pd : ℕ)
      → (last.descs pd).wg ≡ (if some_ready to_write pd evs then pd_ready else (s.descs pd).wg)

zero-neither : (m : Mask) → is_zero m ≡ true → (to_read m ≡ false) × (to_write m ≡ false)
zero-neither m e = ground arith

-- One event: the same for it alone.
record Stepped (n : ℕ) (ev : EpollEvent) (s : State) (to_run : List ℕ) (s' : State) (run : List ℕ)
    : Type 0 where
  kept :
      (g : ℕ)
      → 2 < g
      → tally (blocks g) n s'.descs + count g run ≡ tally (blocks g) n s.descs + count g to_run
  rg :
      (pd : ℕ)
      → (s'.descs pd).rg
        ≡ (if is_for pd ev.data_of && to_read ev.events then pd_ready else (s.descs pd).rg)
  wg :
      (pd : ℕ)
      → (s'.descs pd).wg
        ≡ (if is_for pd ev.data_of && to_write ev.events then pd_ready else (s.descs pd).wg)

or_if :
    (a b : Bool) (x y z : ℕ)
    → z ≡ (if a then x else y)
    → (if b then x else z) ≡ (if a || b then x else y)
or_if a b x y z e = ground arith

Stepped-Collected :
    {n : ℕ} {ev : EpollEvent} {evs : List EpollEvent} {s s' : State} {to_run run : List ℕ}
    {out : Option (State × List ℕ)}
    → Stepped n ev s to_run s' run
    → Collected n evs s' run out
    → Collected n (ev ∷ evs) s to_run out
unfolding some_ready
Stepped-Collected {ev} {evs} {s} {s'} st c = record {
  last = c.last;
  run = c.run;
  returns = c.returns;
  kept = λ g h. c.kept g h ∙ st.kept g h;
  rg = λ pd.
      c.rg pd
      ∙ or_if (is_for pd ev.data_of && to_read ev.events) (some_ready to_read pd evs) pd_ready
          (s.descs pd).rg (s'.descs pd).rg (st.rg pd);
  wg = λ pd.
      c.wg pd
      ∙ or_if (is_for pd ev.data_of && to_write ev.events) (some_ready to_write pd evs) pd_ready
          (s.descs pd).wg (s'.descs pd).wg (st.wg pd);
}

-- An event that changes nothing in the descriptors.
idle_step :
    (n : ℕ) (m : Mask) (of : EventData) (s s' : State) (to_run : List ℕ)
    → s'.descs ≡ s.descs
    → ((pd : ℕ) → (is_for pd of && to_read m ≡ false) × (is_for pd of && to_write m ≡ false))
    → Stepped n (record { events = m; data_of = of }) s to_run s' to_run
idle_step n m of s s' to_run e h = record {
  kept = λ g l. rw e refl;
  rg = λ pd. rw (e, (h pd).0) refl;
  wg = λ pd. rw (e, (h pd).1) refl;
}

assigned :
    (sem : PollDesc → ℕ) (pd pd' : ℕ) (descs : ℕ → PollDesc) (d : PollDesc) (b : Bool)
    → sem d ≡ (if b then pd_ready else sem (descs pd))
    → sem (assign descs pd d pd') ≡ (if (pd == pd') && b then pd_ready else sem (descs pd'))
assigned sem pd pd' descs d b h = elim (Bool-cases (pd == pd')) [
  | inl e ↦ rw (e) (h ∙ ap (λ k. if b then pd_ready else sem (descs k)) ((==_iff pd pd').0 e))
  | inr e ↦ rw e refl
]

ready_step :
    (n : ℕ) (m : Mask) (pd : ℕ) (s : State) (to_run : List ℕ)
    → pd < n
    → Stepped n
        (record { events = m; data_of = desc pd })
        s
        to_run
        (record s { descs = assign s.descs pd (ready_desc m (s.descs pd) to_run).0 })
        (ready_desc m (s.descs pd) to_run).1
ready_step n m pd s to_run h =
    let r = ready_desc-Readied m (s.descs pd) to_run in
    let d = (ready_desc m (s.descs pd) to_run).0 in
    record {
      kept = λ g l. omega (arith, r.kept g l, tally-assign (blocks g) n pd s.descs d h);
      rg = λ pd'. assigned (λ x. x.rg) pd pd' s.descs d (to_read m) r.rg;
      wg = λ pd'. assigned (λ x. x.wg) pd pd' s.descs d (to_write m) r.wg;
    }

event-Collected :
    (n : ℕ) (b : Bool) (m : Mask) (of : EventData) (evs : List EpollEvent) (s : State)
    (to_run : List ℕ)
    → IsExpected n (record { events = m; data_of = of })
    → ((s' : State) (run : List ℕ) → Collected n evs s' run (each_event b evs s' run))
    → Collected n
        (record { events = m; data_of = of } ∷ evs)
        s
        to_run
        (each_event b (record { events = m; data_of = of } ∷ evs) s to_run)
unfolding each_event
event-Collected n b m (desc pd) evs s to_run l more = elim (Bool-cases (is_zero m)) [
  | inl e ↦
      let z = zero-neither m e in
      rw (e, each_event)
        (Stepped-Collected (idle_step n m (desc pd) s s to_run refl (λ pd'. ground (arith, z)))
          (more s to_run))
  | inr e ↦ rw (e, each_event) (Stepped-Collected (ready_step n m pd s to_run l) (more _ _))
]
event-Collected n b m break_rd evs s to_run l more = elim (Bool-cases (is_zero m)) [
  | inl e ↦ absurd (ground arith)
  | inr e ↦
      let drained = record s { wake_sig = 0; pipe = s.pipe - 16 } in
      let s' = if b then drained else s in
      rw (e, l, each_event)
        (Stepped-Collected (idle_step n m break_rd s s' to_run (ground arith) (λ pd. (refl, refl)))
          (more s' to_run))
]

pub each_event-Collected :
    (n : ℕ) (b : Bool) (evs : List EpollEvent) (s : State) (to_run : List ℕ)
    → AllExpected n evs
    → Collected n evs s to_run (each_event b evs s to_run)
unfolding each_event AllExpected some_ready
each_event-Collected n b [] s to_run a = record {
  last = s;
  run = to_run;
  returns = refl;
  kept = λ g h. refl;
  rg = λ pd. refl;
  wg = λ pd. refl;
}
each_event-Collected n b (ev ∷ evs) s to_run (x, a) =
    event-Collected n b ev.events ev.data_of evs s to_run x
      (λ s' run. each_event-Collected n b evs s' run a)
