-- ===== src/Netpoll/Epoll/Breaks.antt =====
-- The pipe of netpoll/netpoll_epoll.go that interrupts a poll.
use srcrd.Prelude.{
  ℕ, zero, suc, ◌+◌, ◌≤◌, ◌≡◌, refl, ap, ap₂, ◌∙◌, inl, inr, Bool-cases, true, false, List, [], ◌∷◌,
  ◌++◌, replicate, some, arith, ◌==◌,
}
use srcrd.Netpoll.Epoll.{
  EpollEvent, break_rd, State, each_event, Wrote, one_byte, eintr, broke, write_loop, netpoll_break,
}

-- A byte in the pipe stands for a break that no poll has taken.
pub record IsValid (s : State) : Type 0 where
  pub sig : s.wake_sig ≤ 1
  pub byte : s.pipe ≡ s.wake_sig

write_loop-one :
    (k : ℕ) (rest : List Wrote) (s : State)
    → write_loop (replicate k eintr ++ (one_byte ∷ rest)) s ≡ broke (record s { pipe = s.pipe + 1 })
unfolding write_loop
write_loop-one zero rest s = refl
write_loop-one (suc k) rest s = write_loop-one k rest s

abbrev pub readable : EpollEvent
readable = record {
  events = record {
    epollin = true;
    epollout = false;
    epollrdhup = false;
    epollhup = false;
    epollerr = false;
    other = false;
  };
  data_of = break_rd;
}

break_writes :
    (k : ℕ) (rest : List Wrote) (s : State)
    → IsValid s
    → netpoll_break (replicate k eintr ++ (one_byte ∷ rest)) s
      ≡ broke (record s { wake_sig = 1; pipe = 1 })
unfolding netpoll_break
break_writes k rest s v = elim (Bool-cases (s.wake_sig == 0)) [
  | inl e ↦ rw (e) (
      write_loop-one k rest (record s { wake_sig = 1 })
      ∙ ap (λ p. broke (record s { wake_sig = 1; pipe = p })) {x = s.pipe + 1} {y = 1}
          (ground (arith, v)))
  | inr e ↦ rw (e) (
      ap₂ (λ w p. broke (record s { wake_sig = w; pipe = p })) {x = s.wake_sig} {y = 1}
        (ground (arith, v)) (ground (arith, v)))
]

-- After any number of interrupted writes, a break leaves one byte in the pipe, also when others came
-- before it; then a blocking poll takes the byte, so that the next break writes again, while a poll that
-- does not block leaves it.
pub netpoll_break_lem :
    (k : ℕ) (rest : List Wrote) (s : State) (to_run : List ℕ)
    → IsValid s
    → let answers = replicate k eintr ++ (one_byte ∷ rest) in
      let broken = record s { wake_sig = 1; pipe = 1 } in
      (netpoll_break answers s ≡ broke broken)
      × (netpoll_break answers broken ≡ broke broken)
      × (each_event true (readable ∷ []) broken to_run
          ≡ some (record s { wake_sig = 0; pipe = 0 }, to_run))
      × (each_event false (readable ∷ []) broken to_run ≡ some (broken, to_run))
unfolding netpoll_break each_event
netpoll_break_lem k rest s to_run v = (break_writes k rest s v, refl, refl, refl)
