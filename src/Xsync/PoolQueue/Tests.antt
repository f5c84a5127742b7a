-- ===== src/Xsync/PoolQueue/Tests.antt =====
-- Runs of xsync/pool_queue.go, and each theorem at one of them.
use srcrd.Prelude.{ℕ, zero, suc, ◌+◌, ◌-◌, ◌^◌, ◌≤◌, ◌<◌, ◌≡◌, refl, List, [], ◌∷◌, length, arith}
use srcrd.Xsync.PoolQueue.{
  nil, item, empty, sentinel, full, PoolDequeue, slot_at, box, unbox, push_head,
}
use srcrd.Xsync.PoolQueue.Inv.{IsValid, contents, size, tail}
use srcrd.Xsync.PoolQueue.Window.{window}
use srcrd.Xsync.PoolQueue.Session.{Op, to_head, from_head, from_tail, run, spec_run, run-spec_run}

-- Four slots, with the indexes about to wrap at 2 ^ 32: the tail is 2 ^ 32 - 1, the head is 1.
abbrev wrapping : PoolDequeue
wrapping = record {
  head_tail = 2 ^ 32 + (2 ^ 32 - 1);
  vals = sentinel ∷ empty ∷ empty ∷ full 7 ∷ [];
}

wrapping_spare :
    (k : ℕ)
    → size wrapping ≤ k
    → k < length wrapping.vals
    → slot_at (tail wrapping + k) wrapping.vals ≡ empty
wrapping_spare zero h l = absurd (omega arith)
wrapping_spare (suc zero) h l = absurd (omega arith)
wrapping_spare (suc (suc zero)) h l = refl
wrapping_spare (suc (suc (suc zero))) h l = refl
wrapping_spare (suc (suc (suc (suc k)))) h l = absurd (omega arith)

wrapping-IsValid : IsValid wrapping
wrapping-IsValid = record {
  word = omega arith;
  quotient = 2 ^ 30;
  divides = refl;
  limit = omega arith;
  fits = omega arith;
  spare = wrapping_spare;
}

contents-wrapping : contents wrapping ≡ item 7 ∷ nil ∷ []
unfolding contents window unbox
contents-wrapping = refl

push_wraps : (push_head (item 5) wrapping).1.vals ≡ sentinel ∷ full 5 ∷ empty ∷ full 7 ∷ []
unfolding push_head box
push_wraps = refl

-- More values than there is room for, and takes from both ends.
abbrev calls : List Op
calls =
    to_head (item 5) ∷ to_head (item 6) ∷ to_head (item 8) ∷ from_tail ∷ from_head ∷ from_head ∷ []

run-spec_run_example : run calls wrapping ≡ spec_run 4 calls (contents wrapping)
run-spec_run_example = run-spec_run calls wrapping wrapping-IsValid
