-- ===== src/Xsync/PoolChain/Push.antt =====
-- `pushHead` of xsync/pool_chain.go: with a new ring where the head is full, the push never fails.
use native.Mathlib.Nat.{one-le-pow}
use srcrd.Prelude.{
  ◌<◌, ◌≡◌, ◌∙◌, sym, ap, ap₂, [], ◌∷◌, ◌++◌, length, arith, true, false, Bool-cases, inl, inr,
  append-nil, append_assoc,
}
use srcrd.Xsync.PoolQueue
use srcrd.Xsync.PoolQueue.{Value, empty, PoolDequeue, dequeue_limit, slot_at}
use srcrd.Xsync.PoolQueue.Inv.{contents}
use srcrd.Xsync.PoolQueue.Refine.{push_head_refines, spec_push}
use srcrd.Xsync.PoolChain.{PoolChain, new_dequeue, init_size, next_size, grow, push_last, push_head}
use srcrd.Xsync.PoolChain.Rings.{
  IsRing, IsChain, values, new-IsRing, next-IsRing, contents_new, push-IsRing,
}

push_new :
    (x : Value) (d : PoolDequeue)
    → IsRing d
    → contents d ≡ []
    → (PoolQueue.push_head x d).0 ≡ true × (contents (PoolQueue.push_head x d).1 ≡ x ∷ [])
unfolding spec_push
push_new x d r e = ground (arith, (push_head_refines d x r.valid).1, room)
  where
    room : 0 < length d.vals
    room = rw r.power (one-le-pow r.exponent 2 (omega arith))

push_accepted :
    (x : Value) (d : PoolDequeue)
    → IsRing d
    → (PoolQueue.push_head x d).0 ≡ true
    → contents (PoolQueue.push_head x d).1 ≡ contents d ++ (x ∷ [])
unfolding spec_push
push_accepted x d r e = ground (arith, (push_head_refines d x r.valid).1)

push_refused :
    (x : Value) (d : PoolDequeue)
    → IsRing d
    → (PoolQueue.push_head x d).0 ≡ false
    → contents (PoolQueue.push_head x d).1 ≡ contents d
unfolding spec_push
push_refused x d r e = ground (arith, (push_head_refines d x r.valid).1)

grow_accepted :
    (x : Value) (d : PoolDequeue)
    → (PoolQueue.push_head x d).0 ≡ true
    → grow x d ≡ (PoolQueue.push_head x d).1 ∷ []
unfolding grow
grow_accepted x d e = rw e

grow_refused :
    (x : Value) (d : PoolDequeue)
    → (PoolQueue.push_head x d).0 ≡ false
    → grow x d
      ≡ (PoolQueue.push_head x d).1
        ∷ (PoolQueue.push_head x (new_dequeue (next_size (length d.vals)))).1
        ∷ []
unfolding grow
grow_refused x d e = rw e

grow_refines :
    (x : Value) (d : PoolDequeue)
    → IsRing d
    → IsChain (grow x d) × (values (grow x d) ≡ contents d ++ (x ∷ []))
unfolding values
grow_refines x d r = elim (Bool-cases (PoolQueue.push_head x d).0) [
  | inl e ↦ rw (grow_accepted x d e) ((push-IsRing d x r, tt), append-nil _ ∙ push_accepted x d r e)
  | inr e ↦
      let fresh = next-IsRing d r in
      rw (grow_refused x d e) (
        (push-IsRing d x r, (push-IsRing _ x fresh, tt)),
        ap₂ ◌++◌ (push_refused x d r e)
            (append-nil _ ∙ (push_new x _ fresh (contents_new (next_size (length d.vals)))).1),
      )
]

push_last_refines :
    (x : Value) (d : PoolDequeue) (c : PoolChain)
    → IsChain (d ∷ c)
    → IsChain (push_last x d c) × (values (push_last x d c) ≡ values (d ∷ c) ++ (x ∷ []))
unfolding push_last values
push_last_refines x d [] r =
    let (chain, e) = grow_refines x d r.0 in
    (chain, e ∙ ap (λ q. q ++ (x ∷ [])) (sym (append-nil (contents d))))
push_last_refines x d (d2 ∷ c) r =
    let (chain, e) = push_last_refines x d2 c r.1 in
    ((r.0, chain), ap (λ q. contents d ++ q) e ∙ sym (append_assoc (contents d) _ _))

-- On a well-formed chain `pushHead` always adds the value, behind all others, and the chain stays
-- well-formed.
pub push_head_adds :
    (x : Value) (c : PoolChain)
    → IsChain c
    → IsChain (push_head x c) × (values (push_head x c) ≡ values c ++ (x ∷ []))
unfolding push_head values
push_head_adds x [] r =
    let first = new-IsRing 3 (omega arith) in
    let (chain, e) = push_last_refines x (new_dequeue init_size) [] (first, tt) in
    (chain, e ∙ ap (λ q. (q ++ []) ++ (x ∷ [])) (contents_new init_size))
push_head_adds x (d ∷ c) r = push_last_refines x d c r
