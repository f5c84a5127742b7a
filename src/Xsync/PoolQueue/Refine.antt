-- ===== src/Xsync/PoolQueue/Refine.antt =====
-- The methods of xsync/pool_queue.go, one by one and in any sequence, against a bounded
-- double-ended queue.
use native.Mathlib.Decide.{dec_lt}
use srcrd.Prelude.{
  ℕ, ◌<◌, ◌≡◌, refl, ◌∙◌, sym, List, [], ◌∷◌, ◌++◌, length, arith, Bool, true, false, Option, none,
  some, if◌then◌else◌, ltb,
}
use srcrd.Xsync.PoolQueue.{Value, PoolDequeue, push_head, pop_head, pop_tail}
use srcrd.Xsync.PoolQueue.Inv.{size, IsValid, contents, length-contents, full_test, empty_test}
use srcrd.Xsync.PoolQueue.Push
use srcrd.Xsync.PoolQueue.PopHead
use srcrd.Xsync.PoolQueue.PopTail

-- The last value of a list, with the rest.
unfoldable pub unsnoc : List Value → Option (List Value × Value)
unsnoc [] = none
unsnoc (x ∷ xs) = elim (unsnoc xs) [ none ↦ some ([], x) | some (ys, y) ↦ some (x ∷ ys, y) ]

pub unsnoc-append : (xs : List Value) (x : Value) → unsnoc (xs ++ (x ∷ [])) ≡ some (xs, x)
unfolding unsnoc
unsnoc-append [] x = refl
unsnoc-append (y ∷ xs) x = ground (arith, unsnoc-append xs x)

-- A queue of at most `cap` values, oldest first: what each method returns, and what it leaves.
unfoldable pub spec_push : ℕ → Value → List Value → Bool × List Value
spec_push cap x q = if ltb (length q) cap then (true, q ++ (x ∷ [])) else (false, q)

unfoldable pub spec_pop_head : List Value → Option Value × List Value
spec_pop_head q = elim (unsnoc q) [ none ↦ (none, []) | some (rest, x) ↦ (some x, rest) ]

unfoldable pub spec_pop_tail : List Value → Option Value × List Value
spec_pop_tail [] = (none, [])
spec_pop_tail (x ∷ q) = (some x, q)

nil_of_length : (q : List Value) → length q ≡ 0 → q ≡ []
nil_of_length [] e = refl
nil_of_length (x ∷ q) e = absurd (omega arith)

spec_push_room :
    (cap : ℕ) (x : Value) (q : List Value)
    → length q < cap
    → spec_push cap x q ≡ (true, q ++ (x ∷ []))
unfolding spec_push
spec_push_room cap x q h = ground arith

spec_push_full :
    (cap : ℕ) (x : Value) (q : List Value) → length q ≡ cap → spec_push cap x q ≡ (false, q)
unfolding spec_push
spec_push_full cap x q h = ground arith

pub spec_pop_head_snoc : (q : List Value) (x : Value) → spec_pop_head (q ++ (x ∷ [])) ≡ (some x, q)
unfolding spec_pop_head
spec_pop_head_snoc q x = ground (arith, unsnoc-append q x)

-- A full ring and an empty one are left alone.
push_head_full :
    (d : PoolDequeue) (x : Value) → IsValid d → size d ≡ length d.vals → push_head x d ≡ (false, d)
unfolding push_head
push_head_full d x v e = ground (arith, full_test d v)

pop_head-none : (d : PoolDequeue) → IsValid d → size d ≡ 0 → pop_head d ≡ (none, d)
unfolding pop_head
pop_head-none d v e = ground (arith, empty_test d v)

pop_tail-none : (d : PoolDequeue) → IsValid d → size d ≡ 0 → pop_tail d ≡ (none, d)
unfolding pop_tail
pop_tail-none d v e = ground (arith, empty_test d v)

contents_none : (d : PoolDequeue) → size d ≡ 0 → contents d ≡ []
contents_none d e = nil_of_length (contents d) (length-contents d ∙ e)

-- On a well-formed ring `pushHead` adds the value at the head if there is room, and otherwise refuses
-- it and changes nothing; the ring stays well-formed.
pub push_head_refines :
    (d : PoolDequeue) (x : Value)
    → IsValid d
    → let (done, d') = push_head x d in
      IsValid d'
      × ((done, contents d') ≡ spec_push (length d.vals) x (contents d))
      × (length d'.vals ≡ length d.vals)
push_head_refines d x v = elim (dec_lt (size d) (length d.vals)) [
  | yes room ↦ rw (Push.push_head_room d v room x) (
    Push.pushed-IsValid d v room x,
    ground (
      arith,
      Push.contents-pushed d v room x,
      spec_push_room (length d.vals) x (contents d) (rw (length-contents d) room),
    ),
    Push.length-pushed d v room x,
  )
  | no crowded ↦
      let e : size d ≡ length d.vals = omega (arith, v.fits) in
      rw (push_head_full d x v e)
        (v, sym (spec_push_full (length d.vals) x (contents d) (length-contents d ∙ e)), refl)
]

-- On a well-formed ring `popHead` takes the newest value, or reports that the ring is empty; the ring
-- stays well-formed.
pub pop_head_refines :
    (d : PoolDequeue)
    → IsValid d
    → let (out, d') = pop_head d in
      IsValid d'
      × ((out, contents d') ≡ spec_pop_head (contents d))
      × (length d'.vals ≡ length d.vals)
unfolding spec_pop_head unsnoc
pop_head_refines d v = elim (dec_lt 0 (size d)) [
  | yes left ↦ rw (PopHead.pop_head-some d v left) (
    PopHead.popped-IsValid d v left,
    rw (PopHead.contents-popped d v left) (sym (spec_pop_head_snoc _ _)),
    PopHead.length-popped d v left,
  )
  | no zero_left ↦
      let e : size d ≡ 0 = omega arith in
      rw (pop_head-none d v e) (v, rw (contents_none d e) refl, refl)
]

-- On a well-formed ring `popTail` takes the oldest value, or reports that the ring is empty; the ring
-- stays well-formed.
pub pop_tail_refines :
    (d : PoolDequeue)
    → IsValid d
    → let (out, d') = pop_tail d in
      IsValid d'
      × ((out, contents d') ≡ spec_pop_tail (contents d))
      × (length d'.vals ≡ length d.vals)
unfolding spec_pop_tail
pop_tail_refines d v = elim (dec_lt 0 (size d)) [
  | yes left ↦ rw (PopTail.pop_tail-some d v left) (
    PopTail.popped-IsValid d v left,
    rw (PopTail.contents-popped d v left) refl,
    PopTail.length-popped d v left,
  )
  | no zero_left ↦
      let e : size d ≡ 0 = omega arith in
      rw (pop_tail-none d v e) (v, rw (contents_none d e) refl, refl)
]
