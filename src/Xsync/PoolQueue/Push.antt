-- ===== src/Xsync/PoolQueue/Push.antt =====
-- `pushHead` of xsync/pool_queue.go puts a value behind the newest.
use srcrd.Prelude.{
  ℕ, ◌+◌, ◌%◌, ◌^◌, ◌<◌, ◌≡◌, ◌≢◌, ◌∙◌, sym, ap, ap₂, [], ◌∷◌, ◌++◌, length, get_or, set,
  length-set, arith, true,
}
use srcrd.Xsync.PoolQueue.{Value, empty, PoolDequeue, index, slot_at, box, unbox, push_head}
use srcrd.Xsync.PoolQueue.Window.{
  window, window-snoc, apart, slot_at-set_self, slot_at-set_ne, window-set_out,
}
use srcrd.Xsync.PoolQueue.Inv.{
  head, tail, size, IsValid, contents, unbox-box, pos, head_slot, full_test,
}

module _ (d : PoolDequeue) (v : IsValid d) (room : size d < length d.vals) (x : Value) where
  pub pushed : PoolDequeue
  pushed = record {
    head_tail = (d.head_tail + 2 ^ 32) % 2 ^ 64;
    vals = set d.vals (index (head d) d.vals) (box x);
  }

  head_free : slot_at (head d) d.vals ≡ empty
  head_free = ap (λ i. get_or d.vals i empty) (head_slot d v) ∙ v.spare (size d) (omega arith) room

  word-pushed : pushed.head_tail < 2 ^ 64
  unfolding pushed
  word-pushed = omega arith

  tail-pushed : tail pushed ≡ tail d
  unfolding pushed
  tail-pushed = omega arith

  size-pushed : size pushed ≡ size d + 1
  unfolding pushed
  size-pushed = omega (arith, v.limit, v.word)

  pub length-pushed : length pushed.vals ≡ length d.vals
  unfolding pushed
  length-pushed = length-set d.vals (index (head d) d.vals) (box x)

  -- The slots that are not at the head are as before.
  slot-pushed :
      (k : ℕ)
      → index (head d) d.vals ≢ index (tail d + k) d.vals
      → slot_at (tail d + k) pushed.vals ≡ slot_at (tail d + k) d.vals
  unfolding pushed
  slot-pushed k ne = slot_at-set_ne d.vals (head d) (tail d + k) (box x) ne

  below : (k : ℕ) → k < size d → index (head d) d.vals ≢ index (tail d + k) d.vals
  below k h e = apart (tail d) k (size d) (length d.vals) h (omega arith) (sym e ∙ head_slot d v)

  above :
      (k : ℕ) → size d < k → k < length d.vals → index (head d) d.vals ≢ index (tail d + k) d.vals
  above k h l e =
      apart (tail d) (size d) k (length d.vals) h (omega arith) (sym (head_slot d v) ∙ e)

  pub contents-pushed : contents pushed ≡ contents d ++ (x ∷ [])
  unfolding contents pushed
  contents-pushed =
      ap₂ (window pushed.vals) tail-pushed (size-pushed ∙ omega arith)
      ∙ window-snoc pushed.vals (size d) (tail d)
      ∙ ap₂ (λ l y. l ++ (y ∷ [])) (window-set_out d.vals (size d) (tail d) (head d) (box x) below)
          (ap unbox
              (slot_at-set_self d.vals (head d) (tail d + size d) (box x) (pos d v) (head_slot d v))
            ∙ unbox-box x)

  pub pushed-IsValid : IsValid pushed
  pushed-IsValid = record {
    word = word-pushed;
    quotient = v.quotient;
    divides = rw length-pushed v.divides;
    limit = rw length-pushed v.limit;
    fits = rw (length-pushed, size-pushed) (omega arith);
    spare = λ k h l.
        ap (λ t. slot_at (t + k) pushed.vals) tail-pushed
        ∙ slot-pushed k (above k (omega (arith, size-pushed)) (omega (arith, length-pushed)))
        ∙ v.spare k (omega (arith, size-pushed)) (omega (arith, length-pushed));
  }

  pub push_head_room : push_head x d ≡ (true, pushed)
  unfolding push_head pushed
  push_head_room = ground (arith, full_test d v, head_free)
