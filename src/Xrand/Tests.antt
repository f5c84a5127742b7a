-- ===== src/Xrand/Tests.antt =====
-- A shuffle of xrand/shuffle.go, with numbers that count up.
use srcrd.Prelude.{ℕ, ◌+◌, ◌%◌, ◌≡◌, refl, arith, some, List, [], ◌∷◌}
use srcrd.Xrand.{shuffle_loop, shuffle, IsDocumented}
use srcrd.Xrand.Permutes.{swap_at, count, Permuted}
use srcrd.Xrand.Every.{Drawn, shuffle-Drawn}

abbrev counts_up : ℕ → ℕ → ℕ × ℕ
counts_up n s = (s % n, s + 1)

counts_up-IsDocumented : IsDocumented counts_up
counts_up-IsDocumented = record { in_range = λ n s h. omega arith }

abbrev three : List ℕ
three = 10 ∷ 20 ∷ 30 ∷ []

moves : shuffle counts_up swap_at 3 0 three ≡ some (2, 30 ∷ 20 ∷ 10 ∷ [])
unfolding shuffle_loop
moves = refl

abbrev turned : List ℕ
turned = 20 ∷ 30 ∷ 10 ∷ []

turned-Permuted : Permuted three turned
unfolding count
turned-Permuted = record { size = refl; values = λ a. omega arith }

shuffle-Drawn_example :
    ((s' : ℕ) × (ys : List ℕ) × (shuffle counts_up swap_at 3 0 three ≡ some (s', ys))
      × Permuted three ys)
    × Drawn 2 three turned
shuffle-Drawn_example = shuffle-Drawn counts_up-IsDocumented 0 three turned turned-Permuted
