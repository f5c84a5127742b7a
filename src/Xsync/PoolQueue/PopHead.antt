-- ===== src/Xsync/PoolQueue/PopHead.antt =====
-- `popHead` of xsync/pool_queue.go takes the newest value.
use native.Mathlib.Decide.{dec_lt}
use srcrd.Prelude.{
  ℕ, ◌+◌, ◌-◌, ◌%◌, ◌^◌, ◌≤◌, ◌<◌, ◌≡◌, ◌≢◌, ◌∙◌, sym, ap, ap₂, [], ◌∷◌, ◌++◌, length, get_or, set,
  length-set, arith, some,
}
use srcrd.Xsync.PoolQueue.{empty, PoolDequeue, pack, index, slot_at, unbox, pop_head}
use srcrd.Xsync.PoolQueue.Window.{
  window, wrap-mod, window-last, apart, slot_at-set_self, slot_at-set_ne, window-set_out,
}
use srcrd.Xsync.PoolQueue.Inv.{head, tail, size, IsValid, contents, pos, empty_test}

module _ (d : PoolDequeue) (v : IsValid d) (some_left : 0 < size d) where
  pub taken : ℕ
  taken = (head d + 2 ^ 32 - 1) % 2 ^ 32

  pub popped : PoolDequeue
  popped = record { head_tail = pack taken (tail d); vals = set d.vals (index taken d.vals) empty }

  word-popped : popped.head_tail < 2 ^ 64
  unfolding popped pack
  word-popped = omega arith

  tail-popped : tail popped ≡ tail d
  unfolding popped pack
  tail-popped = omega arith

  size-popped : size popped ≡ size d - 1
  unfolding popped pack taken
  size-popped = omega (arith, v.limit, v.word)

  pub length-popped : length popped.vals ≡ length d.vals
  unfolding popped
  length-popped = length-set d.vals (index taken d.vals) empty

  back : taken ≡ (tail d + (size d - 1)) % 2 ^ 32
  unfolding taken
  back = omega arith

  taken_slot : index taken d.vals ≡ index (tail d + (size d - 1)) d.vals
  taken_slot =
      ap (λ x. x % length d.vals) back
      ∙ wrap-mod (tail d + (size d - 1)) (length d.vals) v.quotient v.divides

  kept : (j : ℕ) → index taken d.vals ≢ index j d.vals → slot_at j popped.vals ≡ slot_at j d.vals
  unfolding popped
  kept j ne = slot_at-set_ne d.vals taken j empty ne

  hit : (j : ℕ) → index taken d.vals ≡ index j d.vals → slot_at j popped.vals ≡ empty
  unfolding popped
  hit j e = slot_at-set_self d.vals taken j empty (pos d v) e

  below : (k : ℕ) → k < size d - 1 → index taken d.vals ≢ index (tail d + k) d.vals
  below k h e =
      apart (tail d) k (size d - 1) (length d.vals) h (omega (arith, v.fits)) (sym e ∙ taken_slot)

  above : (k : ℕ) → size d ≤ k → k < length d.vals → index taken d.vals ≢ index (tail d + k) d.vals
  above k h l e =
      apart (tail d) (size d - 1) k (length d.vals) (omega arith) (omega arith) (sym taken_slot ∙ e)

  cleared : window popped.vals (tail d) (size d - 1) ≡ window d.vals (tail d) (size d - 1)
  unfolding popped
  cleared = window-set_out d.vals (size d - 1) (tail d) taken empty below

  pub contents-popped : contents d ≡ contents popped ++ (unbox (slot_at taken d.vals) ∷ [])
  unfolding contents
  contents-popped =
      window-last d.vals (size d) (tail d) some_left
      ∙ ap₂ (λ l i. l ++ (unbox (get_or d.vals i empty) ∷ []))
          (sym cleared ∙ ap₂ (window popped.vals) (sym tail-popped) (sym size-popped))
          (sym taken_slot)

  spare-popped :
      (k : ℕ)
      → size popped ≤ k
      → k < length popped.vals
      → slot_at (tail popped + k) popped.vals ≡ empty
  spare-popped k h l =
      ap (λ t. slot_at (t + k) popped.vals) tail-popped ∙ elim (dec_lt k (size d)) [
        | yes last ↦
            hit (tail d + k)
              (taken_slot ∙ ap (λ n. (tail d + n) % length d.vals) (omega (arith, size-popped)))
        | no beyond ↦
            let inside : k < length d.vals = omega (arith, length-popped) in
            kept (tail d + k) (above k (omega arith) inside) ∙ v.spare k (omega arith) inside
      ]

  pub popped-IsValid : IsValid popped
  popped-IsValid = record {
    word = word-popped;
    quotient = v.quotient;
    divides = rw length-popped v.divides;
    limit = rw length-popped v.limit;
    fits = rw (length-popped, size-popped) (omega (arith, v.fits));
    spare = spare-popped;
  }

  pub pop_head-some : pop_head d ≡ (some (unbox (slot_at taken d.vals)), popped)
  unfolding pop_head popped taken
  pop_head-some = ground (arith, empty_test d v)
