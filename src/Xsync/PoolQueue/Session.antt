-- ===== src/Xsync/PoolQueue/Session.antt =====
-- Any sequence of calls on a ring of xsync/pool_queue.go, against a bounded double-ended queue.
use srcrd.Prelude.{ℕ, ◌≡◌, refl, ◌∙◌, ap, List, [], ◌∷◌, length, Bool, Option}
use srcrd.Xsync.PoolQueue.{Value, PoolDequeue, push_head, pop_head, pop_tail}
use srcrd.Xsync.PoolQueue.Inv.{IsValid, contents}
use srcrd.Xsync.PoolQueue.Refine.{
  spec_push, spec_pop_head, spec_pop_tail, push_head_refines, pop_head_refines, pop_tail_refines,
}

-- A call, and what it returns.
pub data Op : Type 0 where
  to_head : Value → Op
  from_head from_tail : Op

pub data Out : Type 0 where
  pushed : Bool → Out
  popped : Option Value → Out

-- What the calls return on the ring, and on a queue of at most `cap` values.
unfoldable pub run : List Op → PoolDequeue → List Out
run [] d = []
run (to_head x ∷ ops) d = let (done, d') = push_head x d in pushed done ∷ run ops d'
run (from_head ∷ ops) d = let (out, d') = pop_head d in popped out ∷ run ops d'
run (from_tail ∷ ops) d = let (out, d') = pop_tail d in popped out ∷ run ops d'

unfoldable pub spec_run : ℕ → List Op → List Value → List Out
spec_run cap [] q = []
spec_run cap (to_head x ∷ ops) q =
    let (done, q') = spec_push cap x q in pushed done ∷ spec_run cap ops q'
spec_run cap (from_head ∷ ops) q =
    let (out, q') = spec_pop_head q in popped out ∷ spec_run cap ops q'
spec_run cap (from_tail ∷ ops) q =
    let (out, q') = spec_pop_tail q in popped out ∷ spec_run cap ops q'

-- On a well-formed ring, any sequence of `pushHead`, `popHead` and `popTail` returns what it returns on a
-- queue that holds the ring's values, and as many as the ring has slots at most.
pub run-spec_run :
    (ops : List Op) (d : PoolDequeue)
    → IsValid d
    → run ops d ≡ spec_run (length d.vals) ops (contents d)
unfolding run spec_run
run-spec_run [] d v = refl
run-spec_run (to_head x ∷ ops) d v =
    let (w, e, l) = push_head_refines d x v in
    let rest = run-spec_run ops (push_head x d).1 w in
    ap (λ o. pushed (push_head x d).0 ∷ o)
      (rest ∙ ap (λ n. spec_run n ops (contents (push_head x d).1)) l)
    ∙ ap (λ r. pushed r.0 ∷ spec_run (length d.vals) ops r.1) e
run-spec_run (from_head ∷ ops) d v =
    let (w, e, l) = pop_head_refines d v in
    let rest = run-spec_run ops (pop_head d).1 w in
    ap (λ o. popped (pop_head d).0 ∷ o)
      (rest ∙ ap (λ n. spec_run n ops (contents (pop_head d).1)) l)
    ∙ ap (λ r. popped r.0 ∷ spec_run (length d.vals) ops r.1) e
run-spec_run (from_tail ∷ ops) d v =
    let (w, e, l) = pop_tail_refines d v in
    let rest = run-spec_run ops (pop_tail d).1 w in
    ap (λ o. popped (pop_tail d).0 ∷ o)
      (rest ∙ ap (λ n. spec_run n ops (contents (pop_tail d).1)) l)
    ∙ ap (λ r. popped r.0 ∷ spec_run (length d.vals) ops r.1) e
