-- ===== src/Threads.antt =====
-- Families of threads: a value for each thread, and what all of them together add up to.
use srcrd.Prelude.{
  ℕ, zero, suc, ◌+◌, ◌≤◌, ◌<◌, ◌≡◌, ◌≢◌, refl, ◌==◌, if◌then◌else◌, arith, Bool-cases, inl, inr,
}

-- Thread `i` changes its value.
abbrev pub assign {ℓ} : {A : Type ℓ} → (ℕ → A) → ℕ → A → ℕ → A
assign f i a j = if i == j then a else f j

module _ {ℓ} {A : Type ℓ} (weight : A → ℕ) where
  -- The weights of the first `n` threads, added up.
  unfoldable pub tally : ℕ → (ℕ → A) → ℕ
  tally zero f = 0
  tally (suc n) f = weight (f n) + tally n f

  tally_above : (n i : ℕ) (f : ℕ → A) (a : A) → n ≤ i → tally n (assign f i a) ≡ tally n f
  unfolding tally
  tally_above zero i f a h = refl
  tally_above (suc n) i f a h = ground (arith, tally_above n i f a)

  -- A change of one thread changes the tally by that thread's part.
  pub tally-assign :
      (n i : ℕ) (f : ℕ → A) (a : A)
      → i < n
      → tally n (assign f i a) + weight (f i) ≡ tally n f + weight a
  unfolding tally
  tally-assign zero i f a h = absurd (omega arith)
  tally-assign (suc n) i f a h = ground (arith, tally_above n i f a, tally-assign n i f a)

  -- Each thread's part is in the tally.
  pub weight-le-tally : (n i : ℕ) (f : ℕ → A) → i < n → weight (f i) ≤ tally n f
  unfolding tally
  weight-le-tally zero i f h = absurd (omega arith)
  weight-le-tally (suc n) i f h = elim (Bool-cases (n == i)) [
    | inl e ↦ let e' : n ≡ i = ground arith in ground arith
    | inr e ↦ omega (arith, weight-le-tally n i f (ground arith))
  ]

  pub tally-eq-zero : (n : ℕ) (f : ℕ → A) → ((i : ℕ) → i < n → weight (f i) ≡ 0) → tally n f ≡ 0
  unfolding tally
  tally-eq-zero zero f h = refl
  tally-eq-zero (suc n) f h =
      omega (arith, h n (omega arith), tally-eq-zero n f (λ i lt. h i (omega arith)))

  pub tally-const : (n : ℕ) (a : A) → weight a ≡ 0 → tally n (λ _. a) ≡ 0
  unfolding tally
  tally-const zero a h = refl
  tally-const (suc n) a h = omega (arith, tally-const n a h)

  -- Two threads have both their parts in the tally.
  pub pair-le-tally :
      (n i j : ℕ) (f : ℕ → A) → i < n → j < n → i ≢ j → weight (f i) + weight (f j) ≤ tally n f
  unfolding tally
  pair-le-tally zero i j f h k ne = absurd (omega arith)
  pair-le-tally (suc n) i j f h k ne = elim (Bool-cases (n == i)) [
    | inl e ↦ let e' : n ≡ i = ground arith in ground (arith, weight-le-tally n j f (ground arith))
    | inr e ↦ elim (Bool-cases (n == j)) [
      | inl e' ↦
          let e₂ : n ≡ j = ground arith in ground (arith, weight-le-tally n i f (ground arith))
      | inr e' ↦ omega (arith, pair-le-tally n i j f (ground arith) (ground arith) ne)
    ]
  ]

  -- The tally goes by the weights only.
  pub tally-cong :
      (n : ℕ) (f g : ℕ → A) → ((i : ℕ) → weight (f i) ≡ weight (g i)) → tally n f ≡ tally n g
  unfolding tally
  tally-cong zero f g h = refl
  tally-cong (suc n) f g h = omega (arith, h n, tally-cong n f g h)

pub tally_mono {ℓ} :
    {A : Type ℓ} (v w : A → ℕ)
    → ((a : A) → v a ≤ w a)
    → (n : ℕ) (f : ℕ → A) → tally v n f ≤ tally w n f
unfolding tally
tally_mono v w h zero f = omega arith
tally_mono v w h (suc n) f = omega (arith, h (f n), tally_mono v w h n f)

-- One weight is zero where another is.
module _ {ℓ} {A : Type ℓ} (v w : A → ℕ) where
  pub tally-blind :
      ((a : A) → w a ≡ 0 → v a ≡ 0) → (n : ℕ) (f : ℕ → A) → tally w n f ≡ 0 → tally v n f ≡ 0
  unfolding tally
  tally-blind h zero f e = refl
  tally-blind h (suc n) f e = omega (arith, h (f n) (omega arith), tally-blind h n f (omega arith))
