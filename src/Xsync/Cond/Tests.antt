-- ===== src/Xsync/Cond/Tests.antt =====
-- A run of xsync/cond.go in which a broadcast comes before its waiter has given the lock back.
use srcrd.Prelude.{ℕ, ◌+◌, ◌≡◌, refl, Bool, true, arith, ltb}
use srcrd.Xsync.Cond.{
  NotifyList, IsDocumented, System, lock, wait_add, wait_unlock, broadcast, Reach, start, after,
}
use srcrd.Xsync.Cond.Locked.{owns, holds, wait_unlocked}

-- How many tickets were notified, and how many more were given out.
abbrev tickets : NotifyList (ℕ × ℕ)
tickets = record {
  empty = (0, 0);
  add = λ l. (l.0 + l.1, (l.0, l.1 + 1));
  notify_all = λ l. (l.0 + l.1, 0);
  lets_go = λ l t. ltb t l.0;
}

abbrev handed_out : ℕ × ℕ → ℕ → Bool
handed_out l t = ltb t (l.0 + l.1)

tickets-IsDocumented : IsDocumented tickets handed_out
tickets-IsDocumented = record {
  hands = λ l. ground arith;
  hands_new = λ l t h. ground arith;
  hands_more = λ l t h. ground arith;
  keeps = λ l t. ground arith;
  waits = λ l. ground arith;
  others = λ l t h. refl;
  all = λ l t h. h;
}

abbrev asleep : (s : System (ℕ × ℕ)) × Reach tickets s
asleep = (
  _,
  after (after (after (after start (lock 0 refl refl)) (wait_add 0 refl)) broadcast)
      (wait_unlock 0 refl),
)

wait_unlocked_example :
    (owns (asleep.0.pc 0) ≡ holds asleep.0.holder 0) × (tickets.lets_go asleep.0.notify 0 ≡ true)
wait_unlocked_example = wait_unlocked tickets-IsDocumented asleep.1 0
