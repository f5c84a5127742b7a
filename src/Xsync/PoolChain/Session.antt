-- ===== src/Xsync/PoolChain/Session.antt =====
-- Any sequence of calls on a chain of xsync/pool_chain.go, against an unbounded double-ended queue.
use srcrd.Prelude.{◌≡◌, refl, ◌∙◌, ap, List, [], ◌∷◌, ◌++◌, Option}
use srcrd.Xsync.PoolQueue.{Value}
use srcrd.Xsync.PoolQueue.Refine.{spec_pop_head, spec_pop_tail}
use srcrd.Xsync.PoolQueue.Session.{Op, to_head, from_head, from_tail}
use srcrd.Xsync.PoolChain.{PoolChain, push_head, pop_head, pop_tail}
use srcrd.Xsync.PoolChain.Rings.{IsChain, values}
use srcrd.Xsync.PoolChain.Push.{push_head_adds}
use srcrd.Xsync.PoolChain.Refine.{pop_head_newest, pop_tail_oldest}

-- What the takes return on the chain, and on a queue.
unfoldable pub takes : List Op → PoolChain → List (Option Value)
takes [] c = []
takes (to_head x ∷ ops) c = takes ops (push_head x c)
takes (from_head ∷ ops) c = let (out, c') = pop_head c in out ∷ takes ops c'
takes (from_tail ∷ ops) c = let (out, c') = pop_tail c in out ∷ takes ops c'

unfoldable pub spec_takes : List Op → List Value → List (Option Value)
spec_takes [] q = []
spec_takes (to_head x ∷ ops) q = spec_takes ops (q ++ (x ∷ []))
spec_takes (from_head ∷ ops) q = let (out, q') = spec_pop_head q in out ∷ spec_takes ops q'
spec_takes (from_tail ∷ ops) q = let (out, q') = spec_pop_tail q in out ∷ spec_takes ops q'

-- On a well-formed chain, after any sequence of `pushHead`, `popHead` and `popTail`, the takes have
-- returned what they return on one unbounded queue that holds the chain's values.
pub takes-spec_takes :
    (ops : List Op) (c : PoolChain) → IsChain c → takes ops c ≡ spec_takes ops (values c)
unfolding takes spec_takes
takes-spec_takes [] c v = refl
takes-spec_takes (to_head x ∷ ops) c v =
    let (w, e) = push_head_adds x c v in
    takes-spec_takes ops (push_head x c) w ∙ ap (spec_takes ops) e
takes-spec_takes (from_head ∷ ops) c v =
    let (w, e) = pop_head_newest c v in
    ap (λ o. (pop_head c).0 ∷ o) (takes-spec_takes ops (pop_head c).1 w)
    ∙ ap (λ r. r.0 ∷ spec_takes ops r.1) e
takes-spec_takes (from_tail ∷ ops) c v =
    let (w, e) = pop_tail_oldest c v in
    ap (λ o. (pop_tail c).0 ∷ o) (takes-spec_takes ops (pop_tail c).1 w)
    ∙ ap (λ r. r.0 ∷ spec_takes ops r.1) e
