-- ===== src/Xstrconv/Digits.antt =====
-- The digits that formatBits writes, as the loop of Atoi reads them.
use srcrd.Prelude.{
  ℕ, zero, suc, ◌+◌, ◌*◌, ◌/◌, ◌%◌, ◌^◌, ◌≤◌, ◌<◌, ◌≡◌, refl, ap, ◌∙◌, ◌⊎◌, inl, inr, Bool, true,
  false, ◌&&◌, Option, some, List, ◌∷◌, length, get_or, arith, Bool-cases, ltb, leb, ◌==◌, lt→ltb,
  ==_iff,
}
use srcrd.Xstrconv.Itoa.{digits, smalls_at, pairs_loop, last_pair}
use srcrd.Xstrconv.Atoi.{atoi_loop}

-- Two functions on the `k` numbers from `i`.
agree : (f g : ℕ → ℕ) (i k : ℕ) → Bool
agree f g i zero = true
agree f g i (suc k) = (f i == g i) && agree f g (i + 1) k

agree_read :
    (f g : ℕ → ℕ) (i k : ℕ) → agree f g i k ≡ true → (d : ℕ) → d < k → f (i + d) ≡ g (i + d)
unfolding agree
agree_read f g i zero h d l = absurd (omega arith)
agree_read f g i (suc k) h zero l =
    let same : f i ≡ g i = ground (arith, ==_iff (f i) (g i)) in
    ap f {x = i + 0} {y = i} (omega arith) ∙ same ∙ ap g {x = i} {y = i + 0} (omega arith)
agree_read f g i (suc k) h (suc d) l =
    let rest : agree f g (i + 1) k ≡ true = ground arith in
    ap f {x = i + suc d} {y = i + 1 + d} (omega arith)
    ∙ agree_read f g (i + 1) k rest d (omega arith)
    ∙ ap g {x = i + 1 + d} {y = i + suc d} (omega arith)

agree_below : (f g : ℕ → ℕ) (k : ℕ) → agree f g 0 k ≡ true → (x : ℕ) → x < k → f x ≡ g x
agree_below f g k h x l =
    ap f {x = x} {y = 0 + x} (omega arith)
    ∙ agree_read f g 0 k h x l
    ∙ ap g {x = 0 + x} {y = x} (omega arith)

tens_table : agree (λ x. smalls_at (x * 2)) (λ x. 48 + x / 10) 0 100 ≡ true
unfolding agree smalls_at
tens_table = refl

ones_table : agree (λ x. smalls_at (x * 2 + 1)) (λ x. 48 + x % 10) 0 100 ≡ true
unfolding agree smalls_at
ones_table = refl

digits_table : agree (λ x. get_or digits x 0) (λ x. 48 + x) 0 10 ≡ true
unfolding agree digits
digits_table = refl

pub smalls_tens : (x : ℕ) → x < 100 → smalls_at (x * 2) ≡ 48 + x / 10
smalls_tens x l = agree_below (λ y. smalls_at (y * 2)) (λ y. 48 + y / 10) 100 tens_table x l

pub smalls_ones : (x : ℕ) → x < 100 → smalls_at (x * 2 + 1) ≡ 48 + x % 10
smalls_ones x l = agree_below (λ y. smalls_at (y * 2 + 1)) (λ y. 48 + y % 10) 100 ones_table x l

pub digits_small : (x : ℕ) → x < 10 → get_or digits x 0 ≡ 48 + x
digits_small x l = agree_below (λ y. get_or digits y 0) (λ y. 48 + y) 10 digits_table x l

-- A digit is read as its value.
pub read_digit :
    (s0 : List ℕ) (n d c : ℕ) (s : List ℕ)
    → c ≡ 48 + d
    → d < 10
    → n * 10 + d < 2 ^ 64
    → atoi_loop s0 n (c ∷ s) ≡ atoi_loop s0 (n * 10 + d) s
unfolding atoi_loop
read_digit s0 n d c s e h b = ground arith

pub read_pair :
    (s0 : List ℕ) (u : ℕ) (s : List ℕ)
    → u < 2 ^ 64
    → atoi_loop s0 (u / 100) (smalls_at (u % 100 * 2) ∷ smalls_at (u % 100 * 2 + 1) ∷ s)
      ≡ atoi_loop s0 u s
read_pair s0 u s h =
    read_digit s0 (u / 100) (u % 100 / 10) _ _ (smalls_tens (u % 100) (omega arith)) (omega arith)
      (omega arith)
    ∙ read_digit s0 (u / 100 * 10 + u % 100 / 10) (u % 100 % 10) _ _
        (smalls_ones (u % 100) (omega arith)) (omega arith) (omega arith)
    ∙ ap (λ n. atoi_loop s0 n s) {x = (u / 100 * 10 + u % 100 / 10) * 10 + u % 100 % 10} {y = u}
        (omega arith)

-- `c` times a hundred, `k` times over.
abbrev pub hundreds : ℕ → ℕ → ℕ
hundreds zero c = c
hundreds (suc k) c = 100 * hundreds k c

-- The loop ends with at most two digits to write; what it wrote is read as what it took from `u`; and
-- it wrote at most `k` pairs, or fewer than `k` if more than `c` is left.
pub record Split (u k c : ℕ) (a : List ℕ) (out : Option (ℕ × List ℕ)) : Type 0 where
  pub v : ℕ
  pub rest : List ℕ
  pub returns : out ≡ some (v, rest)
  pub small : v < 100
  pub reads : (s0 : List ℕ) → atoi_loop s0 v rest ≡ atoi_loop s0 u a
  pub short : (length rest + 2 ≤ length a + k * 2) ⊎ ((length rest ≤ length a + k * 2) × (v < c))

loop_stop : (fuel u : ℕ) (a : List ℕ) → u < 100 → pairs_loop (suc fuel) u a ≡ some (u, a)
unfolding pairs_loop
loop_stop fuel u a h = rw (lt→ltb u 100 h)

loop_turn :
    (fuel u : ℕ) (a : List ℕ)
    → ltb u 100 ≡ false
    → pairs_loop (suc fuel) u a
      ≡ pairs_loop fuel (u / 100) (smalls_at (u % 100 * 2) ∷ smalls_at (u % 100 * 2 + 1) ∷ a)
unfolding pairs_loop
loop_turn fuel u a h = rw h

pub pairs_loop-Split :
    (fuel k c u : ℕ) (a : List ℕ)
    → k < fuel
    → c ≤ 100
    → u < hundreds k c
    → u < 2 ^ 64
    → Split u k c a (pairs_loop fuel u a)
pairs_loop-Split zero k c u a f h b w = absurd (omega arith)
pairs_loop-Split (suc fuel) zero c u a f h b w = record {
  v = u;
  rest = a;
  returns = loop_stop fuel u a (omega arith);
  small = omega arith;
  reads = λ s0. refl;
  short = inr (omega arith, b);
}
pairs_loop-Split (suc fuel) (suc k) c u a f h b w = elim (Bool-cases (ltb u 100)) [
  | inl e ↦ record {
    v = u;
    rest = a;
    returns = loop_stop fuel u a (ground arith);
    small = ground arith;
    reads = λ s0. refl;
    short = inl (omega arith);
  }
  | inr e ↦
      let more =
        pairs_loop-Split fuel k c (u / 100)
          (smalls_at (u % 100 * 2) ∷ smalls_at (u % 100 * 2 + 1) ∷ a) (omega arith) h (omega arith)
          (omega arith) in
      record {
        v = more.v;
        rest = more.rest;
        returns = loop_turn fuel u a e ∙ more.returns;
        small = more.small;
        reads = λ s0. more.reads s0 ∙ read_pair s0 u a w;
        short = omega (arith, more.short);
      }
]

-- The digits that are left come first: one, or two.
pub record Finished (v : ℕ) (a : List ℕ) (out : List ℕ) : Type 0 where
  pub ch : ℕ
  pub s : List ℕ
  pub shape : out ≡ ch ∷ s
  pub is_digit : (48 ≤ ch) × (ch ≤ 57)
  pub reads : (s0 : List ℕ) → atoi_loop s0 0 out ≡ atoi_loop s0 v a
  pub short : (length out ≤ length a + 2) × (v < 10 → length out ≤ length a + 1)

pub last_pair-Finished : (v : ℕ) (a : List ℕ) → v < 100 → Finished v a (last_pair v a)
unfolding last_pair
last_pair-Finished v a h = elim (Bool-cases (leb 10 v)) [
  | inl e ↦ rw e (record {
    ch = smalls_at (v * 2);
    s = smalls_at (v * 2 + 1) ∷ a;
    shape = refl;
    is_digit = omega (arith, smalls_tens v h);
    reads = λ s0.
        read_digit s0 0 (v / 10) _ _ (smalls_tens v h) (omega arith) (omega arith)
        ∙ read_digit s0 (0 * 10 + v / 10) (v % 10) _ _ (smalls_ones v h) (omega arith) (omega arith)
        ∙ ap (λ n. atoi_loop s0 n a) {x = (0 * 10 + v / 10) * 10 + v % 10} {y = v} (omega arith);
    short = (omega arith, λ l. ground arith);
  })
  | inr e ↦ rw e (record {
    ch = smalls_at (v * 2 + 1);
    s = a;
    shape = refl;
    is_digit = omega (arith, smalls_ones v h);
    reads = λ s0.
        read_digit s0 0 (v % 10) _ _ (smalls_ones v h) (omega arith) (omega arith)
        ∙ ap (λ n. atoi_loop s0 n a) {x = 0 * 10 + v % 10} {y = v} (ground arith);
    short = omega arith;
  })
]
