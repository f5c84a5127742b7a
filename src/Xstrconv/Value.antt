-- ===== src/Xstrconv/Value.antt =====
-- Atoi of xstrconv/atoi.go against the value of a decimal text, read by the weights of its places.
use native.Mathlib.Nat.{pow-suc, one-le-pow, pow-le-pow_right}
use srcrd.Prelude.{
  ℕ, suc, ◌+◌, ◌-◌, ◌*◌, ◌%◌, ◌^◌, ◌≤◌, ◌<◌, ◌≡◌, sym, ap, ◌∙◌, inl, inr, Bool, true, false, not,
  ◌&&◌, ◌||◌, List, [], ◌∷◌, length, arith, Bool-cases, leb, ◌==◌, if◌then◌else◌,
}
use srcrd.Xstrconv.Itoa.{minus, negate}
use srcrd.Xstrconv.Digits.{read_digit}
use srcrd.Xstrconv.Atoi.{Parsed, parsed, syntax, atoi_loop, atoi_fast, atoi, is_sign}

abbrev pub IsBytes : List ℕ → Type 0
IsBytes [] = Unit
IsBytes (c ∷ s) = (c < 256) × IsBytes s

abbrev pub is_digit : ℕ → Bool
is_digit c = leb b'0' c && leb c b'9'

pub all_digits : List ℕ → Bool
all_digits [] = true
all_digits (c ∷ s) = is_digit c && all_digits s

pub value : List ℕ → ℕ
value [] = 0
value (c ∷ s) = (c - b'0') * 10 ^ length s + value s

-- A sign with digits behind it, or digits; else a syntax error. Nothing wraps around.
pub spec_atoi : ℕ → List ℕ → Parsed
spec_atoi ch s =
    if is_sign ch
    then if length s == 0 || not (all_digits s)
      then syntax (ch ∷ s)
      else parsed (if ch == minus then negate (value s) else value s)
    else if all_digits (ch ∷ s)
    then parsed (value (ch ∷ s))
    else syntax (ch ∷ s)

value-lt : (s : List ℕ) → all_digits s ≡ true → value s < 10 ^ length s
unfolding value all_digits
value-lt [] h = omega arith
value-lt (c ∷ s) h =
    let d : c - b'0' ≤ 9 = ground arith in
    let rest = value-lt s (ground arith) in grind (arith, pow-suc 10 (length s))

place : (n d p : ℕ) → (n * 10 + d) * p ≡ n * (10 * p) + d * p
place n d p = grind arith

le_mul : (m p : ℕ) → 1 ≤ p → m ≤ m * p
le_mul m p h = grind arith

loop_digits :
    (s0 : List ℕ) (n : ℕ) (s : List ℕ)
    → all_digits s ≡ true
    → n * 10 ^ length s + value s < 2 ^ 64
    → atoi_loop s0 n s ≡ parsed (n * 10 ^ length s + value s)
unfolding atoi_loop value all_digits
loop_digits s0 n [] h b = ap parsed (omega arith)
loop_digits s0 n (c ∷ s) h b =
    let d = c - b'0' in
    let p = 10 ^ length s in
    let regroup : n * 10 ^ suc (length s) + (d * p + value s) ≡ (n * 10 + d) * p + value s =
      omega (arith, place n d p, ap (λ (t : ℕ). n * t) (pow-suc 10 (length s))) in
    let fits : n * 10 + d < 2 ^ 64 =
      omega (arith, regroup, b, le_mul (n * 10 + d) p (one-le-pow (length s) 10 (omega arith))) in
    read_digit s0 n d c s (ground arith) (ground arith) fits
    ∙ loop_digits s0 (n * 10 + d) s (ground arith) (omega (arith, regroup, b))
    ∙ ap parsed (sym regroup)

loop_other :
    (s0 : List ℕ) (n : ℕ) (s : List ℕ)
    → all_digits s ≡ false
    → IsBytes s
    → atoi_loop s0 n s ≡ syntax s0
unfolding atoi_loop all_digits
loop_other s0 n [] h b = cc
loop_other s0 n (c ∷ s) h b =
    ground (arith, loop_other s0 ((n * 10 + (c + 256 - 48) % 256) % 2 ^ 64) s)

-- The value of at most 18 digits is below 2 ^ 63.
value_fits :
    (s : List ℕ) → all_digits s ≡ true → length s < 19 → 0 * 10 ^ length s + value s < 2 ^ 64
value_fits s h l = omega (
  arith,
  value-lt s h,
  pow-le-pow_right {n = 10} (omega arith) {i = length s} {j = 18} (omega arith),
)

read_all :
    (s0 s : List ℕ)
    → IsBytes s
    → length s < 19
    → atoi_loop s0 0 s ≡ (if all_digits s then parsed (value s) else syntax s0)
read_all s0 s b l = elim (Bool-cases (all_digits s)) [
  | inl e ↦ rw e (
      loop_digits s0 0 s e (value_fits s e l)
      ∙ ap parsed {x = 0 * 10 ^ length s + value s} {y = value s} (omega arith))
  | inr e ↦ rw e (loop_other s0 0 s e b)
]

-- On a text of 1 to 18 bytes Atoi is what the grammar of signed decimals says.
pub atoi-eq-spec_atoi :
    (ch : ℕ) (s : List ℕ) → IsBytes (ch ∷ s) → length (ch ∷ s) < 19 → atoi (ch ∷ s) ≡ spec_atoi ch s
unfolding atoi atoi_fast spec_atoi
atoi-eq-spec_atoi ch s b l =
    ground (arith, read_all (ch ∷ s) s b.1 (omega arith), read_all (ch ∷ s) (ch ∷ s) b l)
