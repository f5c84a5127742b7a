-- ===== src/Xfmt/Tests.antt =====
-- Two calls of xfmt/print.go, of which the second takes the printer of the first.
use srcrd.Prelude.{ℕ, ◌+◌, ◌*◌, ◌≡◌, arith, refl, none, List, [], ◌∷◌, ◌++◌, length}
use srcrd.Threads.{tally}
use srcrd.Xbufio.Writer.{IoWrite}
use srcrd.Xfmt.{System, get_pooled, get_new, print, write, put, Reach, start, after}
use srcrd.Xfmt.Exact.{AllClean, deliver, total, before, Reach-delivered}

-- A writer that takes all, and capacities twice as large as needed.
abbrev collects : IoWrite (List ℕ)
collects out p = ((length p, none), out ++ p)

abbrev twice : ℕ → ℕ → ℕ
twice cap n = 2 * n

abbrev two_calls : (s : System (List ℕ)) × Reach collects twice 2 [] s
two_calls = (
  _,
  after
      (after
        (after
          (after
            (after
              (after (after start (get_new 0 (1 ∷ 2 ∷ []) (omega arith) refl))
                (print 0 _ _ (omega arith) refl))
              (write 0 _ _ (omega arith) refl))
            (put 0 _ (omega arith) refl))
          (get_pooled 1 (3 ∷ []) [] [] _ (omega arith) refl refl))
        (print 1 _ _ (omega arith) refl))
      (write 1 _ _ (omega arith) refl),
)

Reach-delivered_example :
    let s = two_calls.0 in
    (s.out ≡ deliver collects [] s.sent)
    × ((f : List ℕ → ℕ) → total f s.called ≡ total f s.sent + tally (before f) 2 s.pc)
    × AllClean s.pool
Reach-delivered_example = Reach-delivered collects twice 2 [] two_calls.1
