-- ===== src/Xsync1/ErrGroup/Tests.antt =====
-- A run of xsync1/errgroup.go, and each theorem at a state of it.
use srcrd.Prelude.{refl, arith, true, some}
use srcrd.Xsync1.ErrGroup.{
  System, go_task, fail, do_first, do_busy, unblock, store, cancel, task_done, wait, pass,
  wait_cancel, wait_return, turn, Reach, start, after,
}
use srcrd.Xsync1.ErrGroup.Safety.{Gave, wait-Gave}

-- Two tasks fail, and the second has come to `errOnce.Do` while the first was in its call.
abbrev both_failed : (s : System) × Reach true 3 s
both_failed = (
  _,
  after
      (after
        (after
          (after
            (after
              (after
                (after
                  (after (after start (turn 0 (omega arith) (go_task (λ e. refl))))
                    (turn 1 (omega arith) (go_task (λ e. refl))))
                  (turn 2 (omega arith) wait))
                (turn 0 (omega arith) (fail 5)))
              (turn 1 (omega arith) (fail 7)))
            (turn 0 (omega arith) (do_first refl)))
          (turn 1 (omega arith) (do_busy refl)))
        (turn 0 (omega arith) store))
      (turn 0 (omega arith) cancel),
)

abbrev tasks_over : (s : System) × Reach true 3 s
tasks_over = (
  _,
  after
      (after (after both_failed.1 (turn 1 (omega arith) (unblock refl)))
        (turn 1 (omega arith) task_done))
      (turn 0 (omega arith) task_done),
)

abbrev before_return : (s : System) × Reach true 3 s
before_return = (
  _,
  after (after tasks_over.1 (turn 2 (omega arith) (pass refl))) (turn 2 (omega arith) wait_cancel),
)

wait-Gave_example : Gave true 3 before_return.0 (some 5)
wait-Gave_example = wait-Gave before_return.1 2 (omega arith) wait_return
