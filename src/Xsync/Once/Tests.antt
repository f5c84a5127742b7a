-- ===== src/Xsync/Once/Tests.antt =====
-- Two calls of xsync/once.go that both find `done` zero, and a theorem at the end of the first.
use srcrd.Prelude.{◌≡◌, refl, arith}
use srcrd.Xsync.Once.{
  System, load_zero, lock, check_zero, call, end, store, unlock, turn, Reach, start, after,
}
use srcrd.Xsync.Once.Safety.{returned_after_call}

abbrev first_returned : (s : System) × Reach 2 s
first_returned = (
  _,
  after
      (after
        (after
          (after
            (after
              (after
                (after (after start (turn 0 (omega arith) (load_zero refl)))
                  (turn 1 (omega arith) (load_zero refl)))
                (turn 0 (omega arith) (lock refl)))
              (turn 0 (omega arith) (check_zero refl)))
            (turn 0 (omega arith) call))
          (turn 0 (omega arith) end))
        (turn 0 (omega arith) store))
      (turn 0 (omega arith) unlock),
)

returned_after_call_example : (first_returned.0.mem.calls ≡ 1) × (first_returned.0.mem.ends ≡ 1)
returned_after_call_example = returned_after_call first_returned.1 0 (omega arith) refl
