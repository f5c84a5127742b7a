-- ===== src/Xsync/PoolQueue/Window.antt =====
-- Index arithmetic of the ring of xsync/pool_queue.go: indexes run on modulo 2 ^ 32, slots are taken
-- modulo the length, and the length divides 2 ^ 32.
use native.Mathlib.Nat.{
  mod-add-mod, mod-eq_of_lt, mod-eq-sub-mod, mul-add-mod_self_left, mod-lt, div-add-mod, mul_assoc,
  add-zero,
}
use native.Mathlib.Decide.{dec_lt}
use srcrd.Prelude.{
  ℕ, zero, suc, ◌+◌, ◌-◌, ◌*◌, ◌/◌, ◌%◌, ◌^◌, ◌<◌, ◌≡◌, ◌≢◌, refl, ◌∙◌, sym, ap, ap₂, List, [], ◌∷◌,
  ◌++◌, length, get_or, set, length-set, arith,
}
use srcrd.Xsync.PoolQueue.{Value, Slot, empty, unbox, slot_at, index}

-- The values in the `n` slots from index `t` on.
unfoldable pub window : List Slot → ℕ → ℕ → List Value
window vals t zero = []
window vals t (suc n) = unbox (slot_at t vals) ∷ window vals (t + 1) n

-- Wrapping at 2 ^ 32 does not change the slot.
pub wrap-mod : (x m q : ℕ) → m * q ≡ 2 ^ 32 → x % 2 ^ 32 % m ≡ x % m
wrap-mod x m q e =
    sym (ap (λ y. y % m) split ∙ mul-add-mod_self_left m (q * (x / 2 ^ 32)) (x % 2 ^ 32))
  where
    split : x ≡ m * (q * (x / 2 ^ 32)) + x % 2 ^ 32
    split =
        sym (div-add-mod x (2 ^ 32))
        ∙ ap (λ y. y + x % 2 ^ 32) (ap (λ y. y * (x / 2 ^ 32)) (sym e) ∙ mul_assoc m q (x / 2 ^ 32))

suc-cong : (m t t' : ℕ) → t % m ≡ t' % m → (t + 1) % m ≡ (t' + 1) % m
suc-cong m t t' e = sym (mod-add-mod t m 1) ∙ ap (λ y. (y + 1) % m) e ∙ mod-add-mod t' m 1

pub window-cong :
    (vals : List Slot) (n t t' : ℕ)
    → index t vals ≡ index t' vals
    → window vals t n ≡ window vals t' n
unfolding window
window-cong vals zero t t' e = refl
window-cong vals (suc n) t t' e =
    ap₂ ◌∷◌ (ap (λ i. unbox (get_or vals i empty)) e)
      (window-cong vals n (t + 1) (t' + 1) (suc-cong (length vals) t t' e))

pub length-window : (vals : List Slot) (n t : ℕ) → length (window vals t n) ≡ n
unfolding window
length-window vals zero t = refl
length-window vals (suc n) t = ap suc (length-window vals n (t + 1))

pub window-snoc :
    (vals : List Slot) (n t : ℕ)
    → window vals t (suc n) ≡ window vals t n ++ (unbox (slot_at (t + n) vals) ∷ [])
unfolding window
window-snoc vals zero t = let e : t ≡ t + 0 = omega arith in ap (λ i. unbox (slot_at i vals) ∷ []) e
window-snoc vals (suc n) t =
    let e : t + 1 + n ≡ t + suc n = omega arith in
    ap (λ l. unbox (slot_at t vals) ∷ l)
      (window-snoc vals n (t + 1)
        ∙ ap (λ i. window vals (t + 1) n ++ (unbox (slot_at i vals) ∷ [])) e)

-- Fewer than `m` steps do not come back to the same slot.
step-ne : (r d m : ℕ) → r < m → 0 < d → d < m → (r + d) % m ≢ r
step-ne r d m h p l = elim (dec_lt (r + d) m) [
  | yes c ↦ omega (arith, mod-eq_of_lt c)
  | no c ↦ omega (
    arith,
    mod-eq-sub-mod {n = r + d} {m = m} (omega arith),
    mod-eq_of_lt {n = r + d - m} {m = m} (omega arith),
  )
]

pub apart : (t i j m : ℕ) → i < j → j < i + m → (t + i) % m ≢ (t + j) % m
apart t i j m h l e =
    step-ne ((t + i) % m) (j - i) m (mod-lt (t + i) (omega arith)) (omega arith) (omega arith)
      (mod-add-mod (t + i) m (j - i) ∙ ap (λ y. y % m) moved ∙ sym e)
  where
    moved : t + i + (j - i) ≡ t + j
    moved = omega arith

get_or-set_self :
    (vals : List Slot) (i : ℕ) (v d : Slot) → i < length vals → get_or (set vals i v) i d ≡ v
get_or-set_self [] i v d h = absurd (omega arith)
get_or-set_self (x ∷ xs) zero v d h = refl
get_or-set_self (x ∷ xs) (suc i) v d h = get_or-set_self xs i v d (omega arith)

get_or-set_ne :
    (vals : List Slot) (i j : ℕ) (v d : Slot) → i ≢ j → get_or (set vals i v) j d ≡ get_or vals j d
get_or-set_ne [] i j v d h = refl
get_or-set_ne (x ∷ xs) zero zero v d h = absurd (h refl)
get_or-set_ne (x ∷ xs) zero (suc j) v d h = refl
get_or-set_ne (x ∷ xs) (suc i) zero v d h = refl
get_or-set_ne (x ∷ xs) (suc i) (suc j) v d h = get_or-set_ne xs i j v d (λ e. h (ap suc e))

-- What a write leaves in the slot that it hits, and in the others.
pub slot_at-set_self :
    (vals : List Slot) (i j : ℕ) (v : Slot)
    → 0 < length vals
    → index i vals ≡ index j vals
    → slot_at j (set vals (index i vals) v) ≡ v
slot_at-set_self vals i j v h e =
    ap (λ m. get_or (set vals (index i vals) v) (j % m) empty) (length-set vals (index i vals) v)
    ∙ ap (λ k. get_or (set vals (index i vals) v) k empty) (sym e)
    ∙ get_or-set_self vals (index i vals) v empty (mod-lt i h)

pub slot_at-set_ne :
    (vals : List Slot) (i j : ℕ) (v : Slot)
    → index i vals ≢ index j vals
    → slot_at j (set vals (index i vals) v) ≡ slot_at j vals
slot_at-set_ne vals i j v h =
    ap (λ m. get_or (set vals (index i vals) v) (j % m) empty) (length-set vals (index i vals) v)
    ∙ get_or-set_ne vals (index i vals) (index j vals) v empty h

-- A write outside a window does not show in it.
pub window-set_out :
    (vals : List Slot) (n t i : ℕ) (v : Slot)
    → ((k : ℕ) → k < n → index i vals ≢ index (t + k) vals)
    → window (set vals (index i vals) v) t n ≡ window vals t n
unfolding window
window-set_out vals zero t i v h = refl
window-set_out vals (suc n) t i v h =
    ap₂ ◌∷◌ (ap unbox (slot_at-set_ne vals i t v (rw (add-zero t) at (h 0 (omega arith))))) (
      window-set_out vals n (t + 1) i v
        (λ k lt e. h (suc k) (omega arith) (e ∙ ap (λ y. index y vals) (omega arith))))

pub window-cons :
    (vals : List Slot) (n t : ℕ)
    → 0 < n
    → window vals t n ≡ unbox (slot_at t vals) ∷ window vals (t + 1) (n - 1)
unfolding window
window-cons vals zero t h = absurd (omega arith)
window-cons vals (suc n) t h =
    let e : n ≡ suc n - 1 = omega arith in
    ap (λ k. unbox (slot_at t vals) ∷ window vals (t + 1) k) e

pub window-last :
    (vals : List Slot) (n t : ℕ)
    → 0 < n
    → window vals t n ≡ window vals t (n - 1) ++ (unbox (slot_at (t + (n - 1)) vals) ∷ [])
window-last vals zero t h = absurd (omega arith)
window-last vals (suc n) t h =
    let e : n ≡ suc n - 1 = omega arith in
    window-snoc vals n t ∙ ap (λ k. window vals t k ++ (unbox (slot_at (t + k) vals) ∷ [])) e
