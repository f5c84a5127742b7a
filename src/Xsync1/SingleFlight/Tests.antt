-- ===== src/Xsync1/SingleFlight/Tests.antt =====
-- Two callers of one key, of which the second waits; and then both have returned.
use srcrd.Prelude.{ℕ, ◌≤◌, refl, Option, some}
use srcrd.Xsync1.SingleFlight.{
  System, join_call, make_call, fn_returns, call_done, return_own, return_shared, Reach, start,
  after,
}
use srcrd.Xsync1.SingleFlight.Shared.{ran_once}

abbrev one_waits : (s : System) × Reach s
one_waits = (_, after (after start (make_call 0 7 refl refl)) (join_call 1 7 _ refl refl))

abbrev both_returned : (s : System) × Reach s
both_returned = (
  _,
  after
      (after (after (after one_waits.1 (fn_returns 0 7 _ 42 refl refl)) (call_done 0 7 _ refl refl))
        (return_own 0 7 _ refl refl))
      (return_shared 1 7 _ refl refl refl),
)

ran_once_example : both_returned.0.runs 7 ≤ 1
ran_once_example = ran_once both_returned.1 7

abbrev result : Option ℕ
result = some 42
