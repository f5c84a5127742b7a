-- ===== src/Xrand/Places.antt =====
-- The values at the first places of an array, for xrand/shuffle.go.
use srcrd.Prelude.{
  ℕ, zero, suc, ◌+◌, ◌≤◌, ◌<◌, ◌≡◌, refl, ap, ap₂, inl, inr, List, [], ◌∷◌, length, get_or, set,
  ◌==◌, if◌then◌else◌, arith, Bool-cases, ==_iff,
}
use srcrd.Xrand.Permutes.{count, get_or-set}

-- How often a value stands in the first `k` places.
unfoldable pub occurs : ℕ → ℕ → List ℕ → ℕ
occurs a zero xs = 0
occurs a (suc k) xs = (if get_or xs k 0 == a then 1 else 0) + occurs a k xs

occurs-cons :
    (a k x : ℕ) (xs : List ℕ)
    → occurs a (suc k) (x ∷ xs) ≡ (if x == a then 1 else 0) + occurs a k xs
unfolding occurs
occurs-cons a zero x xs = refl
occurs-cons a (suc k) x xs = omega (arith, occurs-cons a k x xs)

pub count-eq-occurs : (a : ℕ) (xs : List ℕ) → count a xs ≡ occurs a (length xs) xs
unfolding count occurs
count-eq-occurs a [] = refl
count-eq-occurs a (x ∷ xs) = omega (arith, count-eq-occurs a xs, occurs-cons a (length xs) x xs)

occurs-set_above :
    (a k : ℕ) (xs : List ℕ) (i v : ℕ)
    → i < length xs
    → k ≤ i
    → occurs a k (set xs i v) ≡ occurs a k xs
unfolding occurs
occurs-set_above a zero xs i v h l = refl
occurs-set_above a (suc k) xs i v h l =
    ground (arith, get_or-set xs i k v h, occurs-set_above a k xs i v h (omega arith))

pub occurs-set :
    (a k : ℕ) (xs : List ℕ) (i v : ℕ)
    → i < length xs
    → i < k
    → occurs a k (set xs i v) + (if get_or xs i 0 == a then 1 else 0)
      ≡ occurs a k xs + (if v == a then 1 else 0)
unfolding occurs
occurs-set a zero xs i v h l = absurd (omega arith)
occurs-set a (suc k) xs i v h l = elim (Bool-cases (i == k)) [
  | inl e ↦
      let e' : i ≡ k = ground (arith, e) in
      ground (
        arith,
        e,
        get_or-set xs i k v h,
        occurs-set_above a k xs i v h (omega (arith, e')),
        ap (λ m. get_or xs m 0) e',
      )
  | inr e ↦ ground (arith, e, get_or-set xs i k v h, occurs-set a k xs i v h (ground (arith, e)))
]

-- A value that occurs has a place.
pub place_of : (a k : ℕ) (xs : List ℕ) → 1 ≤ occurs a k xs → (j : ℕ) × (j < k) × (get_or xs j 0 ≡ a)
unfolding occurs
place_of a zero xs h = absurd (omega arith)
place_of a (suc k) xs h = elim (Bool-cases (get_or xs k 0 == a)) [
  | inl e ↦ (k, omega arith, (==_iff (get_or xs k 0) a).0 e)
  | inr e ↦ let (j, l, p) = place_of a k xs (ground (arith, e)) in (j, omega (arith, l), p)
]

pub get_or-ext :
    (xs ys : List ℕ) → length xs ≡ length ys → ((m : ℕ) → get_or xs m 0 ≡ get_or ys m 0) → xs ≡ ys
get_or-ext [] [] l h = refl
get_or-ext [] (y ∷ ys) l h = absurd (omega arith)
get_or-ext (x ∷ xs) [] l h = absurd (omega arith)
get_or-ext (x ∷ xs) (y ∷ ys) l h =
    ap₂ (λ a b. a ∷ b) (h 0) (get_or-ext xs ys (omega arith) (λ m. h (suc m)))

pub get_or_out : (xs : List ℕ) (m : ℕ) → length xs ≤ m → get_or xs m 0 ≡ 0
get_or_out [] m h = refl
get_or_out (x ∷ xs) zero h = absurd (omega arith)
get_or_out (x ∷ xs) (suc m) h = get_or_out xs m (omega arith)
