-- ===== src/Xfasthttp/WorkerPool/Search.antt =====
-- The binary search of `clean` in xfasthttp/workerpool.go.
use srcrd.Prelude.{
  ℕ, zero, suc, ◌+◌, ◌-◌, ◌/◌, ◌≤◌, ◌<◌, ◌≡◌, ◌≢◌, refl, sym, ◌∙◌, true, false, some, List, [], ◌∷◌,
  length, get_elem?, arith, Bool-cases, ltb, inl, inr,
}
use srcrd.Xfasthttp.WorkerPool.{WorkerChan, search_loop}

abbrev pub some_elem :
    (ws : List WorkerChan) (i : ℕ) → i < length ws → (w : WorkerChan) × (get_elem? ws i ≡ some w)
some_elem [] i h = absurd (omega arith)
some_elem (w ∷ ws) zero h = (w, refl)
some_elem (w ∷ ws) (suc i) h = some_elem ws i (omega arith)

-- The workers before `k` were last used before the critical time, and those from `k` on were not.
pub record Splits (ready : List WorkerChan) (critical k : ℕ) : Type 0 where
  pub inside : k ≤ length ready
  pub before :
      (i : ℕ) (w : WorkerChan) → i < k → get_elem? ready i ≡ some w → w.last_use_time < critical
  pub after :
      (i : ℕ) (w : WorkerChan) → k ≤ i → get_elem? ready i ≡ some w → critical ≤ w.last_use_time

abbrev pub All : (WorkerChan → Type 0) → List WorkerChan → Type 0
All P [] = Unit
All P (w ∷ ws) = P w × All P ws

beyond : (ws : List WorkerChan) (i : ℕ) (w : WorkerChan) → length ws ≤ i → get_elem? ws i ≢ some w
beyond [] i w h e = cc
beyond (v ∷ ws) zero w h e = absurd (omega arith)
beyond (v ∷ ws) (suc i) w h e = beyond ws i w (omega arith) e

-- Workers stand in the order of their last use.
abbrev pub IsSorted : List WorkerChan → Type 0
IsSorted [] = Unit
IsSorted (w ∷ ws) = All (λ v. w.last_use_time ≤ v.last_use_time) ws × IsSorted ws

pub All-get :
    (P : WorkerChan → Type 0) (ws : List WorkerChan) (i : ℕ) (w : WorkerChan)
    → All P ws
    → get_elem? ws i ≡ some w
    → P w
All-get P [] i w h e = absurd cc
All-get P (v ∷ ws) zero w h e = let q : w ≡ v = cc in rw q h.0
All-get P (v ∷ ws) (suc i) w h e = All-get P ws i w h.1 e

sorted_order :
    (ws : List WorkerChan) (i j : ℕ) (v w : WorkerChan)
    → IsSorted ws
    → i ≤ j
    → get_elem? ws i ≡ some v
    → get_elem? ws j ≡ some w
    → v.last_use_time ≤ w.last_use_time
sorted_order [] i j v w s h e f = absurd cc
sorted_order (x ∷ ws) zero zero v w s h e f = ground arith
sorted_order (x ∷ ws) zero (suc j) v w s h e f =
    ground (arith, All-get (λ y. x.last_use_time ≤ y.last_use_time) ws j w s.0 f)
sorted_order (x ∷ ws) (suc i) zero v w s h e f = absurd (omega arith)
sorted_order (x ∷ ws) (suc i) (suc j) v w s h e f = sorted_order ws i j v w s.1 (omega arith) e f

module _ (ready : List WorkerChan) (critical : ℕ) where
  loop_end :
      (fuel l hi : ℕ) → ltb l hi ≡ false → search_loop ready critical (suc fuel) l hi ≡ some hi
  unfolding search_loop
  loop_end fuel l hi h = rw h refl

  loop_up :
      (fuel l hi : ℕ) (w : WorkerChan)
      → ltb l hi ≡ true
      → get_elem? ready ((l + hi - 1) / 2) ≡ some w
      → ltb w.last_use_time critical ≡ true
      → search_loop ready critical (suc fuel) l hi
        ≡ search_loop ready critical fuel ((l + hi - 1) / 2 + 1) hi
  unfolding search_loop
  loop_up fuel l hi w h e c = rw (h, e) (rw c refl)

  loop_down :
      (fuel l hi : ℕ) (w : WorkerChan)
      → ltb l hi ≡ true
      → get_elem? ready ((l + hi - 1) / 2) ≡ some w
      → ltb w.last_use_time critical ≡ false
      → search_loop ready critical (suc fuel) l hi
        ≡ search_loop ready critical fuel l ((l + hi - 1) / 2)
  unfolding search_loop
  loop_down fuel l hi w h e c = rw (h, e) (rw c refl)

  -- With enough fuel the search ends, whatever the order of the workers; it keeps to the slice.
  pub search_returns :
      (fuel l hi : ℕ)
      → hi - l < fuel
      → l ≤ hi
      → hi ≤ length ready
      → (k : ℕ) × (search_loop ready critical fuel l hi ≡ some k) × (k ≤ length ready)
  search_returns zero l hi f a b = absurd (omega arith)
  search_returns (suc fuel) l hi f a b = elim (Bool-cases (ltb l hi)) [
    | inr h ↦ (hi, loop_end fuel l hi h, b)
    | inl h ↦
        let mid = (l + hi - 1) / 2 in
        let below : l < hi = ground arith in
        let (w, e) = some_elem ready mid (omega arith) in
        elim (Bool-cases (ltb w.last_use_time critical)) [
          | inl c ↦
              let (k, r, q) = search_returns fuel (mid + 1) hi (omega arith) (omega arith) b in
              (k, loop_up fuel l hi w h e c ∙ r, q)
          | inr c ↦
              let (k, r, q) = search_returns fuel l mid (omega arith) (omega arith) (omega arith) in
              (k, loop_down fuel l hi w h e c ∙ r, q)
        ]
  ]

  -- What the loop keeps: the workers outside of it stand on their side.
  record Narrowed (l hi : ℕ) : Type 0 where
    ordered : l ≤ hi
    within : hi ≤ length ready
    before :
        (i : ℕ) (w : WorkerChan) → i < l → get_elem? ready i ≡ some w → w.last_use_time < critical
    after :
        (i : ℕ) (w : WorkerChan) → hi ≤ i → get_elem? ready i ≡ some w → critical ≤ w.last_use_time

  stop-Splits : (l hi k : ℕ) → Narrowed l hi → hi ≤ l → some hi ≡ some k → Splits ready critical k
  stop-Splits l hi k v b e =
      let q : hi ≡ k = cc in
      record {
        inside = omega (arith, v.within);
        before = λ i w p g. v.before i w (omega arith) g;
        after = λ i w p g. v.after i w (omega arith) g;
      }

  narrow-Splits :
      IsSorted ready
      → (fuel l hi k : ℕ) → Narrowed l hi
      → search_loop ready critical fuel l hi ≡ some k
      → Splits ready critical k
  unfolding search_loop
  narrow-Splits o zero l hi k v r = absurd cc
  narrow-Splits o (suc fuel) l hi k v r = elim (Bool-cases (ltb l hi)) [
    | inr h ↦ stop-Splits l hi k v (ground arith) (sym (loop_end fuel l hi h) ∙ r)
    | inl h ↦
        let mid = (l + hi - 1) / 2 in
        let below : l < hi = ground arith in
        let (w, e) = some_elem ready mid (omega (arith, v.within)) in
        elim (Bool-cases (ltb w.last_use_time critical)) [
          | inl c ↦
              narrow-Splits o fuel (mid + 1) hi k
                (record {
                  ordered = omega arith;
                  within = v.within;
                  before =
                      λ i x p g. ground (arith, sorted_order ready i mid x w o (omega arith) g e);
                  after = v.after;
                })
                (sym (loop_up fuel l hi w h e c) ∙ r)
          | inr c ↦
              narrow-Splits o fuel l mid k
                (record {
                  ordered = omega arith;
                  within = omega (arith, v.within);
                  before = v.before;
                  after = λ i x p g. ground (arith, sorted_order ready mid i w x o p e g);
                })
                (sym (loop_down fuel l hi w h e c) ∙ r)
        ]
  ]

  -- On sorted workers the search splits them at the critical time.
  pub search-Splits :
      IsSorted ready
      → (k : ℕ) → search_loop ready critical (suc (length ready)) 0 (length ready) ≡ some k
      → Splits ready critical k
  search-Splits o k r =
      narrow-Splits o (suc (length ready)) 0 (length ready) k
        (record {
          ordered = omega arith;
          within = omega arith;
          before = λ i x p g. absurd (omega arith);
          after = λ i x p g. absurd (beyond ready i x p g);
        })
        r
