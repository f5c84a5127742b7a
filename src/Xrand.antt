-- ===== src/Xrand.antt =====
-- xrand/shuffle.go: the shuffle. The source of random numbers comes from outside, as a function on a
-- state of its own, and so does the swap of the caller, which may panic.
pub mod Permutes
mod Places
pub mod Every
mod Tests
use srcrd.Prelude.{ℕ, zero, suc, ◌+◌, ◌-◌, ◌<◌, Option, none, some}

module _ {S T : Type 0} (intn : ℕ → S → ℕ × S) (swap : ℕ → ℕ → T → Option T) where
  -- The loop, from `i` down to one.
  pub shuffle_loop : ℕ → S → T → Option (S × T)
  shuffle_loop zero s t = some (s, t)
  shuffle_loop (suc i) s t =
      let (j, s') = intn (suc i + 1) s in
      elim (swap (suc i) j t) [ none ↦ none | some t' ↦ shuffle_loop i s' t' ]

  -- `Shuffle`
  abbrev pub shuffle : ℕ → S → T → Option (S × T)
  shuffle n s t = shuffle_loop (n - 1) s t

-- `rand.Intn`: "a non-negative pseudo-random number in the half-open interval [0,n)".
pub record IsDocumented {S : Type 0} (intn : ℕ → S → ℕ × S) : Type 0 where
  pub in_range : (n : ℕ) (s : S) → 0 < n → (intn n s).0 < n
