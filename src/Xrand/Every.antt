-- ===== src/Xrand/Every.antt =====
-- Which orders of an array xrand/shuffle.go gives.
use srcrd.Prelude.{
  ℕ, zero, suc, ◌+◌, ◌-◌, ◌≤◌, ◌<◌, ◌≡◌, refl, sym, ap, ◌∙◌, inl, inr, some, List, [], ◌∷◌, length,
  get_or, set, length-set, ltb, ◌==◌, if◌then◌else◌, arith, lt→ltb, Bool-cases, ==_iff,
}
use srcrd.Xrand.{shuffle_loop, shuffle, IsDocumented}
use srcrd.Xrand.Places.{occurs, count-eq-occurs, occurs-set, place_of, get_or-ext, get_or_out}
use srcrd.Xrand.Permutes.{
  swap_at, Permuted, get_or-set, get_or-first, shuffle_turn, shuffle-Permuted,
}

-- A source that gives the numbers of a list, and zero for one that is out of range.
pub drawn : ℕ → List ℕ → ℕ × List ℕ
drawn n [] = (0, [])
drawn n (d ∷ ds) = (if ltb d n then d else 0, ds)

drawn-IsDocumented : IsDocumented drawn
unfolding drawn
drawn-IsDocumented = record { in_range = in_range }
  where
    in_range : (n : ℕ) (ds : List ℕ) → 0 < n → (drawn n ds).0 < n
    in_range n [] h = h
    in_range n (d ∷ ds) h = ground arith

-- What is left to do for places up to `i`: above them the array is as wanted, and in them it has the
-- values that are wanted there.
record Left (i : ℕ) (xs ys : List ℕ) : Type 0 where
  inside : i < length xs
  size : length xs ≡ length ys
  above : (m : ℕ) → i < m → get_or xs m 0 ≡ get_or ys m 0
  values : (a : ℕ) → occurs a (suc i) xs ≡ occurs a (suc i) ys

Left-zero : (xs ys : List ℕ) → Left 0 xs ys → xs ≡ ys
unfolding occurs
Left-zero xs ys l = get_or-ext xs ys l.size same
  where
    same : (m : ℕ) → get_or xs m 0 ≡ get_or ys m 0
    same zero = ground (arith, l.values (get_or ys 0 0))
    same (suc m) = l.above (suc m) (omega arith)

-- The array after a swap that is in bounds.
abbrev swapped : ℕ → ℕ → List ℕ → List ℕ
swapped i j xs = set (set xs i (get_or xs j 0)) j (get_or xs i 0)

swap_at-swapped :
    (i j : ℕ) (xs : List ℕ) → i < length xs → j < length xs → swap_at i j xs ≡ some (swapped i j xs)
swap_at-swapped i j xs hi hj = rw (lt→ltb i (length xs) hi, lt→ltb j (length xs) hj) refl

module _ (i j : ℕ) (xs : List ℕ) (hi : i < length xs) (hj : j ≤ i) where
  inner_length : j < length (set xs i (get_or xs j 0))
  inner_length = omega (arith, length-set xs i (get_or xs j 0))

  get_or-swapped :
      (m : ℕ)
      → get_or (swapped i j xs) m 0
        ≡ (if j == m then get_or xs i 0 else if i == m then get_or xs j 0 else get_or xs m 0)
  get_or-swapped m =
      let y = get_or xs j 0 in
      get_or-set (set xs i y) j m (get_or xs i 0) inner_length
      ∙ ap (λ v. if j == m then get_or xs i 0 else v) (get_or-set xs i m y hi)

  occurs-swapped : (a : ℕ) → occurs a (suc i) (swapped i j xs) ≡ occurs a (suc i) xs
  occurs-swapped a =
      let x = get_or xs i 0 in
      let y = get_or xs j 0 in
      omega (
        arith,
        occurs-set a (suc i) xs i y hi (omega arith),
        rw (get_or-first xs i j hi) at
            (occurs-set a (suc i) (set xs i y) j x inner_length (omega arith)),
      )

  length-swapped : length (swapped i j xs) ≡ length xs
  length-swapped =
      length-set (set xs i (get_or xs j 0)) j (get_or xs i 0) ∙ length-set xs i (get_or xs j 0)

-- A swap that brings the wanted value to place `suc i` leaves the places up to `i`.
swapped-Left :
    (i j : ℕ) (xs ys : List ℕ)
    → Left (suc i) xs ys
    → j ≤ suc i
    → get_or xs j 0 ≡ get_or ys (suc i) 0
    → Left i (swapped (suc i) j xs) ys
unfolding occurs
swapped-Left i j xs ys l hj e =
    let g = get_or-swapped (suc i) j xs l.inside hj in
    let n = length-swapped (suc i) j xs l.inside hj in
    let at_top : get_or (swapped (suc i) j xs) (suc i) 0 ≡ get_or ys (suc i) 0 =
      elim (Bool-cases (j == suc i)) [
        | inl q ↦
            let q' : j ≡ suc i = ground (arith, q) in
            g (suc i) ∙ rw q (sym (ap (λ m. get_or xs m 0) q') ∙ e)
        | inr q ↦ g (suc i) ∙ rw (q, (==_iff (suc i) (suc i)).1 refl) e
      ] in
    record {
      inside = omega (arith, n, l.inside);
      size = n ∙ l.size;
      above = λ m h. elim (Bool-cases (suc i == m)) [
        | inl q ↦
            let zs = swapped (suc i) j xs in
            let q' = (==_iff (suc i) m).0 q in
            sym (ap (λ k. get_or zs k 0) q') ∙ at_top ∙ ap (λ k. get_or ys k 0) q'
        | inr q ↦ ground (arith, g m, q, l.above m)
      ];
      values = λ a. ground (arith, occurs-swapped (suc i) j xs l.inside hj a, l.values a, at_top);
    }

occurs_self : (k : ℕ) (ys : List ℕ) → 1 ≤ occurs (get_or ys k 0) (suc k) ys
unfolding occurs
occurs_self k ys = rw ((==_iff (get_or ys k 0) (get_or ys k 0)).1 refl) (omega arith)

drawn_head : (n d : ℕ) (ds : List ℕ) → d < n → drawn n (d ∷ ds) ≡ (d, ds)
unfolding drawn
drawn_head n d ds h = rw (lt→ltb d n h) refl

-- The draws that lead from an array to another in the loop from `i` on, and are all used.
pub record Drawn (i : ℕ) (xs ys : List ℕ) : Type 0 where
  pub draws : List ℕ
  pub size : length draws ≡ i
  pub gives : shuffle_loop drawn swap_at i draws xs ≡ some ([], ys)

drawn_turn :
    (i j : ℕ) (ds xs ys : List ℕ)
    → j ≤ suc i
    → suc i < length xs
    → shuffle_loop drawn swap_at i ds (swapped (suc i) j xs) ≡ some ([], ys)
    → shuffle_loop drawn swap_at (suc i) (j ∷ ds) xs ≡ some ([], ys)
drawn_turn i j ds xs ys hj hi e =
    let d = drawn_head (suc i + 1) j ds (omega arith) in
    let s = ap (λ p. swap_at (suc i) p.0 xs) d ∙ swap_at-swapped (suc i) j xs hi (omega arith) in
    shuffle_turn drawn-IsDocumented i (j ∷ ds) xs s
    ∙ ap (λ p. shuffle_loop drawn swap_at i p.1 (swapped (suc i) j xs)) d
    ∙ e

Left-Drawn : (i : ℕ) (xs ys : List ℕ) → Left i xs ys → Drawn i xs ys
unfolding shuffle_loop
Left-Drawn zero xs ys l = record {
  draws = [];
  size = refl;
  gives = ap (λ zs. some ([], zs)) (Left-zero xs ys l);
}
Left-Drawn (suc i) xs ys l =
    let (j, lt, e) =
      place_of (get_or ys (suc i) 0) (suc (suc i)) xs
        (rw (l.values (get_or ys (suc i) 0)) (occurs_self (suc i) ys)) in
    let d =
      Left-Drawn i (swapped (suc i) j xs) ys (swapped-Left i j xs ys l (omega (arith, lt)) e) in
    record {
      draws = j ∷ d.draws;
      size = ap suc d.size;
      gives = drawn_turn i j d.draws xs ys (omega (arith, lt)) l.inside d.gives;
    }

Permuted-Left : (x : ℕ) (xs ys : List ℕ) → Permuted (x ∷ xs) ys → Left (length xs) (x ∷ xs) ys
Permuted-Left x xs ys p = record {
  inside = omega arith;
  size = sym p.size;
  above =
      λ m h. get_or_out (x ∷ xs) m (omega arith) ∙ sym (get_or_out ys m (omega (arith, p.size)));
  values = λ a.
      sym (count-eq-occurs a (x ∷ xs))
      ∙ sym (p.values a)
      ∙ count-eq-occurs a ys
      ∙ ap (λ n. occurs a n ys) p.size;
}

Permuted-Drawn : (xs ys : List ℕ) → Permuted xs ys → Drawn (length xs - 1) xs ys
unfolding shuffle_loop
Permuted-Drawn [] [] p = record { draws = []; size = refl; gives = refl }
Permuted-Drawn [] (y ∷ ys) p = absurd (omega (arith, p.size))
Permuted-Drawn (x ∷ xs) ys p =
    let d = Left-Drawn (length xs) (x ∷ xs) ys (Permuted-Left x xs ys p) in
    let e : suc (length xs) - 1 ≡ length xs = omega arith in rw e d

-- With random numbers in their documented range, a shuffle of all indices of an array asks for no swap
-- out of bounds, and leaves the same values in the array, each as often as before. And any order of them
-- can come out: for each there are numbers, one less than the array is long, that give it and are all used.
pub shuffle-Drawn :
    {S : Type 0} {intn : ℕ → S → ℕ × S}
    → IsDocumented intn
    → (s : S) (xs zs : List ℕ) → Permuted xs zs
    → ((s' : S) × (ys : List ℕ) × (shuffle intn swap_at (length xs) s xs ≡ some (s', ys))
        × Permuted xs ys)
      × Drawn (length xs - 1) xs zs
shuffle-Drawn doc s xs zs p = (shuffle-Permuted doc s xs, Permuted-Drawn xs zs p)
