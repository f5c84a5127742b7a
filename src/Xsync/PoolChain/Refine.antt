-- ===== src/Xsync/PoolChain/Refine.antt =====
-- `popHead` and `popTail` of xsync/pool_chain.go take from both ends of one unbounded queue.
use srcrd.Prelude.{
  ◌≡◌, refl, ◌∙◌, ap, List, [], ◌∷◌, ◌++◌, arith, none, some, Option-cases, inl, inr, append-nil,
  append_assoc,
}
use srcrd.Xsync.PoolQueue
use srcrd.Xsync.PoolQueue.{Value, empty, PoolDequeue, dequeue_limit, slot_at}
use srcrd.Xsync.PoolQueue.Inv.{contents}
use srcrd.Xsync.PoolQueue.Refine.{
  pop_head_refines, pop_tail_refines, spec_pop_head, spec_pop_tail, spec_pop_head_snoc, unsnoc,
}
use srcrd.Xsync.PoolChain.{PoolChain, pop_head, pop_first, pop_tail}
use srcrd.Xsync.PoolChain.Rings.{IsChain, values, pop_head-IsRing, pop_tail-IsRing}

-- A take from the newer rings, or else from this one.
pop_head_newer :
    (d : PoolDequeue) (c : PoolChain) (x : Value)
    → (pop_head c).0 ≡ some x
    → pop_head (d ∷ c) ≡ (some x, d ∷ (pop_head c).1)
unfolding pop_head
pop_head_newer d c x e = ground arith

pop_head_here :
    (d : PoolDequeue) (c : PoolChain)
    → (pop_head c).0 ≡ none
    → pop_head (d ∷ c) ≡ ((PoolQueue.pop_head d).0, (PoolQueue.pop_head d).1 ∷ (pop_head c).1)
unfolding pop_head
pop_head_here d c e = ground arith

-- What a list is from its last value.
pub unsnoc-none : (q : List Value) → unsnoc q ≡ none → q ≡ []
unfolding unsnoc
unsnoc-none [] e = refl
unsnoc-none (y ∷ q) e = ground arith

pub unsnoc-some :
    (q rest : List Value) (x : Value) → unsnoc q ≡ some (rest, x) → q ≡ rest ++ (x ∷ [])
unfolding unsnoc
unsnoc-some [] rest x e = cc
unsnoc-some (y ∷ q) rest x e = elim (Option-cases (unsnoc q)) [
  | inl n ↦ ground (arith, unsnoc-none q n)
  | inr ((ys, z), s) ↦ ground (arith, unsnoc-some q ys z s)
]

pub spec_head_none : (q : List Value) → unsnoc q ≡ none → spec_pop_head q ≡ (none, [])
unfolding spec_pop_head
spec_head_none q e = ground arith

pub spec_head_some :
    (q rest : List Value) (x : Value) → unsnoc q ≡ some (rest, x) → spec_pop_head q ≡ (some x, rest)
unfolding spec_pop_head
spec_head_some q rest x e = ground arith

-- On a well-formed chain `popHead` takes the newest value, or reports that the chain is empty; the
-- chain stays well-formed.
pub pop_head_newest :
    (c : PoolChain)
    → IsChain c
    → IsChain (pop_head c).1 × (((pop_head c).0, values (pop_head c).1) ≡ spec_pop_head (values c))
unfolding values pop_head spec_pop_head unsnoc
pop_head_newest [] r = (tt, refl)
pop_head_newest (d ∷ c) r =
    let (chain, e) = pop_head_newest c r.1 in
    elim (Option-cases (unsnoc (values c))) [
      | inl n ↦
          let none_newer = e ∙ spec_head_none (values c) n in
          rw (pop_head_here d c (ap (λ p. p.0) none_newer)) (
            (pop_head-IsRing d r.0, chain),
            ground (
              arith,
              none_newer,
              unsnoc-none (values c) n,
              append-nil (contents (PoolQueue.pop_head d).1),
              append-nil (contents d),
              (pop_head_refines d r.0.valid).1,
            ),
          )
      | inr ((rest, x), s) ↦
          let one_newer = e ∙ spec_head_some (values c) rest x s in
          rw (pop_head_newer d c x (ap (λ p. p.0) one_newer)) (
            (r.0, chain),
            ground (
              arith,
              one_newer,
              unsnoc-some (values c) rest x s,
              append_assoc (contents d) rest (x ∷ []),
              spec_pop_head_snoc (contents d ++ rest) x,
            ),
          )
    ]

-- A take from the ring at the tail, or else from the next.
pop_first_here :
    (d d2 : PoolDequeue) (c : PoolChain) (x : Value)
    → (PoolQueue.pop_tail d).0 ≡ some x
    → pop_first d (d2 ∷ c) ≡ (some x, (PoolQueue.pop_tail d).1 ∷ d2 ∷ c)
unfolding pop_first
pop_first_here d d2 c x e = ground arith

pop_first_next :
    (d d2 : PoolDequeue) (c : PoolChain)
    → (PoolQueue.pop_tail d).0 ≡ none
    → pop_first d (d2 ∷ c) ≡ pop_first d2 c
unfolding pop_first
pop_first_next d d2 c e = ground arith

spec_tail_split :
    (q rest : List Value) (x : Value) → (some x, rest) ≡ spec_pop_tail q → q ≡ x ∷ rest
unfolding spec_pop_tail
spec_tail_split [] rest x e = cc
spec_tail_split (y ∷ q) rest x e = cc

spec_tail_none : (q rest : List Value) → (none, rest) ≡ spec_pop_tail q → q ≡ []
unfolding spec_pop_tail
spec_tail_none [] rest e = refl
spec_tail_none (y ∷ q) rest e = cc

pop_first_refines :
    (d : PoolDequeue) (c : PoolChain)
    → IsChain (d ∷ c)
    → IsChain (pop_first d c).1
      × (((pop_first d c).0, values (pop_first d c).1) ≡ spec_pop_tail (values (d ∷ c)))
unfolding values pop_first spec_pop_tail
pop_first_refines d [] r = (
  (pop_tail-IsRing d r.0, tt),
  ground (
    arith,
    append-nil (contents (PoolQueue.pop_tail d).1),
    append-nil (contents d),
    (pop_tail_refines d r.0.valid).1,
  ),
)
pop_first_refines d (d2 ∷ c) r =
    let here = (pop_tail_refines d r.0.valid).1 in
    elim (Option-cases (PoolQueue.pop_tail d).0) [
      | inl n ↦
          let drained =
            spec_tail_none (contents d) (contents (PoolQueue.pop_tail d).1) (rw n at here) in
          rw (pop_first_next d d2 c n, drained) (pop_first_refines d2 c r.1)
      | inr (x, s) ↦
          let e =
            spec_tail_split (contents d) (contents (PoolQueue.pop_tail d).1) x (rw s at here) in
          rw (pop_first_here d d2 c x s, e) (((pop_tail-IsRing d r.0, r.1)), refl)
    ]

-- On a well-formed chain `popTail` takes the oldest value, or reports that the chain is empty; the
-- chain stays well-formed, and no value is dropped with a ring.
pub pop_tail_oldest :
    (c : PoolChain)
    → IsChain c
    → IsChain (pop_tail c).1 × (((pop_tail c).0, values (pop_tail c).1) ≡ spec_pop_tail (values c))
unfolding pop_tail values spec_pop_tail
pop_tail_oldest [] r = (tt, refl)
pop_tail_oldest (d ∷ c) r = pop_first_refines d c r
