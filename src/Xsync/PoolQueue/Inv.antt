-- ===== src/Xsync/PoolQueue/Inv.antt =====
-- When the ring of xsync/pool_queue.go is well-formed, and the queue that it stands for.
use srcrd.Prelude.{
  ℕ, zero, suc, ◌+◌, ◌-◌, ◌*◌, ◌%◌, ◌^◌, ◌≤◌, ◌<◌, ◌≡◌, refl, ◌∙◌, ap, List, length, arith, ◌==◌,
}
use srcrd.Xsync.PoolQueue.{
  Value, nil, item, empty, PoolDequeue, dequeue_limit, unpack_head, unpack_tail, index, slot_at,
  box, unbox,
}
use srcrd.Xsync.PoolQueue.Window.{window, wrap-mod, length-window}

abbrev pub head : PoolDequeue → ℕ
head d = unpack_head d.head_tail

abbrev pub tail : PoolDequeue → ℕ
tail d = unpack_tail d.head_tail

pub unbox-box : (x : Value) → unbox (box x) ≡ x
unfolding unbox box
unbox-box nil = refl
unbox-box (item x) = refl

-- The number of values, on 32 bits.
abbrev pub size : PoolDequeue → ℕ
size d = (head d + 2 ^ 32 - tail d) % 2 ^ 32

pub record IsValid (d : PoolDequeue) : Type 0 where
  pub word : d.head_tail < 2 ^ 64
  pub quotient : ℕ
  pub divides : length d.vals * quotient ≡ 2 ^ 32
  pub limit : length d.vals ≤ dequeue_limit
  pub fits : size d ≤ length d.vals
  pub spare : (k : ℕ) → size d ≤ k → k < length d.vals → slot_at (tail d + k) d.vals ≡ empty

unfoldable pub contents : PoolDequeue → List Value
contents d = window d.vals (tail d) (size d)

pub length-contents : (d : PoolDequeue) → length (contents d) ≡ size d
unfolding contents
length-contents d = length-window d.vals (size d) (tail d)

length_pos : (m q : ℕ) → m * q ≡ 2 ^ 32 → 0 < m
length_pos zero q e = absurd (omega arith)
length_pos (suc m) q e = omega arith

module _ (d : PoolDequeue) (v : IsValid d) where
  pub pos : 0 < length d.vals
  pos = length_pos (length d.vals) v.quotient v.divides

  pub head_slot : index (head d) d.vals ≡ index (tail d + size d) d.vals
  head_slot =
      ap (λ x. x % length d.vals) wrapped
      ∙ wrap-mod (tail d + size d) (length d.vals) v.quotient v.divides
    where
      wrapped : head d ≡ (tail d + size d) % 2 ^ 32
      wrapped = omega arith

  pub full_test : ((tail d + length d.vals) % 2 ^ 32 == head d) ≡ (size d == length d.vals)
  full_test = ground (arith, v.limit, v.fits)

  pub empty_test : (tail d == head d) ≡ (size d == 0)
  empty_test = ground arith
