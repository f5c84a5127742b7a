-- ===== src/Xsync/PoolQueue/PopTail.antt =====
-- `popTail` of xsync/pool_queue.go takes the oldest value.
use native.Mathlib.Nat.{mod-add-mod, add-mod_right}
use native.Mathlib.Decide.{dec_lt}
use srcrd.Prelude.{
  ℕ, suc, ◌+◌, ◌-◌, ◌%◌, ◌^◌, ◌≤◌, ◌<◌, ◌≡◌, ◌≢◌, ◌∙◌, sym, ap, ◌∷◌, length, get_or, set,
  length-set, arith, some,
}
use srcrd.Xsync.PoolQueue.{empty, PoolDequeue, pack, index, slot_at, unbox, pop_tail}
use srcrd.Xsync.PoolQueue.Window.{
  window, wrap-mod, window-cong, window-cons, apart, slot_at-set_self, slot_at-set_ne,
  window-set_out,
}
use srcrd.Xsync.PoolQueue.Inv.{head, tail, size, IsValid, contents, pos, empty_test}

module _ (d : PoolDequeue) (v : IsValid d) (some_left : 0 < size d) where
  pub popped : PoolDequeue
  popped = record {
    head_tail = pack (head d) ((tail d + 1) % 2 ^ 32);
    vals = set d.vals (index (tail d) d.vals) empty;
  }

  word-popped : popped.head_tail < 2 ^ 64
  unfolding popped pack
  word-popped = omega arith

  tail-popped : tail popped ≡ (tail d + 1) % 2 ^ 32
  unfolding popped pack
  tail-popped = omega arith

  size-popped : size popped ≡ size d - 1
  unfolding popped pack
  size-popped = omega (arith, v.limit, v.word)

  pub length-popped : length popped.vals ≡ length d.vals
  unfolding popped
  length-popped = length-set d.vals (index (tail d) d.vals) empty

  kept : (j : ℕ) → index (tail d) d.vals ≢ index j d.vals → slot_at j popped.vals ≡ slot_at j d.vals
  unfolding popped
  kept j ne = slot_at-set_ne d.vals (tail d) j empty ne

  hit : (j : ℕ) → index (tail d) d.vals ≡ index j d.vals → slot_at j popped.vals ≡ empty
  unfolding popped
  hit j e = slot_at-set_self d.vals (tail d) j empty (pos d v) e

  -- The next tail, with the wrap left out.
  tail_slot : (k : ℕ) → index (tail popped + k) d.vals ≡ index (tail d + suc k) d.vals
  tail_slot k =
      ap (λ t. (t + k) % length d.vals) tail-popped
      ∙ sym (mod-add-mod ((tail d + 1) % 2 ^ 32) (length d.vals) k)
      ∙ ap (λ r. (r + k) % length d.vals)
          (wrap-mod (tail d + 1) (length d.vals) v.quotient v.divides)
      ∙ mod-add-mod (tail d + 1) (length d.vals) k
      ∙ ap (λ t. t % length d.vals) (omega arith)

  moved : (k : ℕ) → suc k < length d.vals → index (tail d) d.vals ≢ index (tail d + suc k) d.vals
  moved k l e =
      apart (tail d) 0 (suc k) (length d.vals) (omega arith) (omega arith)
        (ap (λ t. t % length d.vals) (omega arith) ∙ e)

  outside : (k : ℕ) → k < size d - 1 → index (tail d) d.vals ≢ index (tail d + 1 + k) d.vals
  outside k h e = moved k (omega (arith, v.fits)) (e ∙ ap (λ t. t % length d.vals) (omega arith))

  next_slot : index (tail d + 1) popped.vals ≡ index (tail popped) popped.vals
  next_slot = rw length-popped (
      sym (wrap-mod (tail d + 1) (length d.vals) v.quotient v.divides)
      ∙ ap (λ t. t % length d.vals) (sym tail-popped))

  cleared : window popped.vals (tail d + 1) (size d - 1) ≡ window d.vals (tail d + 1) (size d - 1)
  unfolding popped
  cleared = window-set_out d.vals (size d - 1) (tail d + 1) (tail d) empty outside

  pub contents-popped : contents d ≡ unbox (slot_at (tail d) d.vals) ∷ contents popped
  unfolding contents
  contents-popped =
      window-cons d.vals (size d) (tail d) some_left
      ∙ ap (λ l. unbox (slot_at (tail d) d.vals) ∷ l)
          (sym cleared
            ∙ window-cong popped.vals (size d - 1) (tail d + 1) (tail popped) next_slot
            ∙ ap (window popped.vals (tail popped)) (sym size-popped))

  -- The slot that was the oldest is now the last spare one.
  spare-popped :
      (k : ℕ)
      → size popped ≤ k
      → k < length popped.vals
      → slot_at (tail popped + k) popped.vals ≡ empty
  spare-popped k h l =
      ap (λ i. get_or popped.vals i empty) slot ∙ elim (dec_lt (suc k) (length d.vals)) [
        | yes inside ↦
            kept (tail d + suc k) (moved k inside)
            ∙ v.spare (suc k) (omega (arith, size-popped)) inside
        | no last ↦ hit (tail d + suc k) (last_slot (omega (arith, length-popped)))
      ]
    where
      slot : index (tail popped + k) popped.vals ≡ index (tail d + suc k) popped.vals
      slot = rw length-popped (tail_slot k)

      last_slot : suc k ≡ length d.vals → index (tail d) d.vals ≡ index (tail d + suc k) d.vals
      last_slot e =
          sym (add-mod_right (tail d) (length d.vals))
          ∙ ap (λ n. (tail d + n) % length d.vals) (sym e)

  pub popped-IsValid : IsValid popped
  popped-IsValid = record {
    word = word-popped;
    quotient = v.quotient;
    divides = rw length-popped v.divides;
    limit = rw length-popped v.limit;
    fits = rw (length-popped, size-popped) (omega (arith, v.fits));
    spare = spare-popped;
  }

  pub pop_tail-some : pop_tail d ≡ (some (unbox (slot_at (tail d) d.vals)), popped)
  unfolding pop_tail popped
  pop_tail-some = ground (arith, empty_test d v)
