-- ===== src/Xrand/Permutes.antt =====
-- The values that xrand/shuffle.go leaves in an array.
use srcrd.Prelude.{
  ℕ, zero, suc, ◌+◌, ◌-◌, ◌<◌, ◌≡◌, refl, ap, ◌∙◌, Bool, true, false, Option, none, some, List, [],
  ◌∷◌, length, get_or, set, length-set, ltb, ◌==◌, ◌&&◌, if◌then◌else◌, arith, lt→ltb,
}
use srcrd.Xrand.{shuffle_loop, shuffle, IsDocumented}

-- `xs[i], xs[j] = xs[j], xs[i]`, with its panic.
abbrev pub swap_at : ℕ → ℕ → List ℕ → Option (List ℕ)
swap_at i j xs =
    if ltb i (length xs) && ltb j (length xs)
    then some (set (set xs i (get_or xs j 0)) j (get_or xs i 0))
    else none

-- How often a value stands in a list.
unfoldable pub count : ℕ → List ℕ → ℕ
count a [] = 0
count a (x ∷ xs) = (if x == a then 1 else 0) + count a xs

-- The same values, as often.
pub record Permuted (xs ys : List ℕ) : Type 0 where
  pub size : length ys ≡ length xs
  pub values : (a : ℕ) → count a ys ≡ count a xs

count-set :
    (a : ℕ) (xs : List ℕ) (i v : ℕ)
    → i < length xs
    → count a (set xs i v) + (if get_or xs i 0 == a then 1 else 0)
      ≡ count a xs + (if v == a then 1 else 0)
unfolding count
count-set a [] i v h = absurd (omega arith)
count-set a (x ∷ xs) zero v h = omega arith
count-set a (x ∷ xs) (suc i) v h = omega (arith, count-set a xs i v (omega arith))

pub get_or-set :
    (xs : List ℕ) (i j v : ℕ)
    → i < length xs
    → get_or (set xs i v) j 0 ≡ (if i == j then v else get_or xs j 0)
get_or-set [] i j v h = absurd (omega arith)
get_or-set (x ∷ xs) zero zero v h = refl
get_or-set (x ∷ xs) zero (suc j) v h = ground arith
get_or-set (x ∷ xs) (suc i) zero v h = ground arith
get_or-set (x ∷ xs) (suc i) (suc j) v h = get_or-set xs i j v (omega arith) ∙ ground arith

-- The second write of a swap overwrites what the first left at its place.
pub get_or-first :
    (xs : List ℕ) (i j : ℕ) → i < length xs → get_or (set xs i (get_or xs j 0)) j 0 ≡ get_or xs j 0
get_or-first xs i j h = get_or-set xs i j (get_or xs j 0) h ∙ either (i == j) (get_or xs j 0)
  where
    either : (b : Bool) (v : ℕ) → (if b then v else v) ≡ v
    either true v = refl
    either false v = refl

swap_at-Permuted :
    (i j : ℕ) (xs : List ℕ)
    → i < length xs
    → j < length xs
    → (ys : List ℕ) × (swap_at i j xs ≡ some ys) × Permuted xs ys
swap_at-Permuted i j xs hi hj =
    let x = get_or xs i 0 in
    let y = get_or xs j 0 in
    let l = length-set xs i y in
    (
      set (set xs i y) j x,
      rw (lt→ltb i (length xs) hi, lt→ltb j (length xs) hj) refl,
      record {
        size = length-set (set xs i y) j x ∙ l;
        values = λ a. omega (
          arith,
          count-set a xs i y hi,
          rw (get_or-first xs i j hi) at (count-set a (set xs i y) j x (omega (arith, l))),
        );
      },
    )

module _ {S : Type 0} {intn : ℕ → S → ℕ × S} (doc : IsDocumented intn) where
  pub shuffle_turn :
      (i : ℕ) (s : S) (xs : List ℕ) {ys : List ℕ}
      → swap_at (suc i) (intn (suc i + 1) s).0 xs ≡ some ys
      → shuffle_loop intn swap_at (suc i) s xs
        ≡ shuffle_loop intn swap_at i (intn (suc i + 1) s).1 ys
  unfolding shuffle_loop
  shuffle_turn i s xs e = rw (e, shuffle_loop) refl

  shuffle_loop-Permuted :
      (i : ℕ) (s : S) (xs : List ℕ)
      → i < length xs
      → (s' : S) × (ys : List ℕ) × (shuffle_loop intn swap_at i s xs ≡ some (s', ys))
        × Permuted xs ys
  unfolding shuffle_loop
  shuffle_loop-Permuted zero s xs h = (s, xs, refl, record { size = refl; values = λ a. refl })
  shuffle_loop-Permuted (suc i) s xs h =
      let d = doc.in_range (suc i + 1) s (omega arith) in
      let (ys, e, p) = swap_at-Permuted (suc i) (intn (suc i + 1) s).0 xs h (omega (arith, d)) in
      let (s', zs, f, q) =
        shuffle_loop-Permuted i (intn (suc i + 1) s).1 ys (omega (arith, p.size)) in
      (
        s',
        zs,
        shuffle_turn i s xs e ∙ f,
        record { size = q.size ∙ p.size; values = λ a. q.values a ∙ p.values a },
      )

  -- With random numbers in their documented range, a shuffle of all indices of an array asks for no swap
  -- out of bounds, and leaves the same values in the array, each as often as before.
  pub shuffle-Permuted :
      (s : S) (xs : List ℕ)
      → (s' : S) × (ys : List ℕ) × (shuffle intn swap_at (length xs) s xs ≡ some (s', ys))
        × Permuted xs ys
  unfolding shuffle_loop
  shuffle-Permuted s [] = (s, [], refl, record { size = refl; values = λ a. refl })
  shuffle-Permuted s (x ∷ xs) =
      let (s', ys, e, p) = shuffle_loop-Permuted (length xs) s (x ∷ xs) (omega arith) in
      (
        s',
        ys,
        ap (λ n. shuffle_loop intn swap_at n s (x ∷ xs)) {x = suc (length xs) - 1} {y = length xs}
              (omega arith)
            ∙ e,
        p,
      )
