-- ===== src/Xstrconv/Roundtrip.antt =====
-- Itoa of xstrconv/itoa.go, and Atoi of xstrconv/atoi.go on what Itoa writes.
use native.Mathlib.Decide.{dec_lt}
use srcrd.Prelude.{
  ℕ, ◌+◌, ◌-◌, ◌*◌, ◌/◌, ◌%◌, ◌^◌, ◌≤◌, ◌<◌, ◌≡◌, refl, sym, ap, ◌∙◌, ◌⊎◌, inl, inr, Bool, true,
  false, some, List, [], ◌∷◌, length, get_or, arith, Bool-cases, ltb, if◌then◌else◌,
}
use srcrd.Xstrconv.Itoa.{
  digits, smalls_at, small, pairs_loop, last_pair, add_sign, formatted, format_bits, format_int,
  itoa, minus, negate, is_negative,
}
use srcrd.Xstrconv.Atoi.{parsed, atoi_loop, atoi_fast, atoi}
use srcrd.Xstrconv.Digits.{
  smalls_tens, smalls_ones, digits_small, read_digit, hundreds, pairs_loop-Split, Finished,
  last_pair-Finished,
}

-- A text of digits for the number `u`.
record Decimal (u : ℕ) (d : List ℕ) : Type 0 where
  ch : ℕ
  s : List ℕ
  shape : d ≡ ch ∷ s
  is_digit : (48 ≤ ch) × (ch ≤ 57)
  reads : (s0 : List ℕ) → atoi_loop s0 0 d ≡ parsed u

finish-Decimal :
    (u v : ℕ) (a d : List ℕ)
    → Finished v a d
    → ((s0 : List ℕ) → atoi_loop s0 v a ≡ atoi_loop s0 u [])
    → Decimal u d
unfolding atoi_loop
finish-Decimal u v a d f r = record {
  ch = f.ch;
  s = f.s;
  shape = f.shape;
  is_digit = f.is_digit;
  reads = λ s0. f.reads s0 ∙ r s0;
}

-- `Atoi` on such a text, and on one with a minus before it.
atoi_digits :
    (u ch : ℕ) (s : List ℕ)
    → length (ch ∷ s) < 19
    → 48 ≤ ch
    → atoi_loop (ch ∷ s) 0 (ch ∷ s) ≡ parsed u
    → atoi (ch ∷ s) ≡ parsed u
unfolding atoi atoi_fast
atoi_digits u ch s l b r = ground arith

atoi-Decimal : (u : ℕ) (d : List ℕ) → Decimal u d → length d < 19 → atoi d ≡ parsed u
atoi-Decimal u d w l =
    ap atoi w.shape
    ∙ atoi_digits u w.ch w.s (omega (arith, l, ap length w.shape)) w.is_digit.0
        (ap (λ q. atoi_loop (w.ch ∷ w.s) 0 q) (sym w.shape) ∙ w.reads (w.ch ∷ w.s))

atoi-minus :
    (u : ℕ) (d : List ℕ)
    → length (minus ∷ d) < 19
    → 0 < length d
    → atoi_loop (minus ∷ d) 0 d ≡ parsed u
    → atoi (minus ∷ d) ≡ parsed (negate u)
unfolding atoi atoi_fast
atoi-minus u d l b r = ground arith

-- What formatBits writes for `m`, the magnitude of `i`.
record Wrote (i m : ℕ) (neg : Bool) (k c : ℕ) : Type 0 where
  d : List ℕ
  decimal : Decimal m d
  returns : format_bits [] i 10 neg false ≡ formatted ([], add_sign neg d)
  short : (length d ≤ k * 2 + 2) × (c ≤ 10 → length d ≤ k * 2 + 1)

format_bits_lem :
    (i v : ℕ) (neg : Bool) (a : List ℕ)
    → pairs_loop 10 (if neg then negate i else i) [] ≡ some (v, a)
    → format_bits [] i 10 neg false ≡ formatted ([], add_sign neg (last_pair v a))
unfolding format_bits
format_bits_lem i v neg a e = rw e refl

format_bits-Wrote :
    (i m : ℕ) (neg : Bool) (k c : ℕ)
    → m ≡ (if neg then negate i else i)
    → k < 10
    → c ≤ 100
    → m < hundreds k c
    → m < 2 ^ 64
    → Wrote i m neg k c
format_bits-Wrote i m neg k c e f b h w =
    let t = pairs_loop-Split 10 k c m [] f b h w in
    let l = last_pair-Finished t.v t.rest t.small in
    record {
      d = last_pair t.v t.rest;
      decimal = finish-Decimal m t.v t.rest (last_pair t.v t.rest) l t.reads;
      returns = format_bits_lem i t.v neg t.rest (rw (sym e) t.returns);
      short = (
        omega (arith, l.short, t.short),
        λ e. elim t.short [
          | inl x ↦ omega (arith, l.short.0, x)
          | inr x ↦ omega (arith, l.short.1 (omega (arith, x.1)), x)
        ],
      );
    }

-- A rendering of `i`: Itoa returns it, it fits into the array of formatBits, and Atoi reads it.
pub record Rendered (i : ℕ) (s : List ℕ) : Type 0 where
  pub returns : itoa i ≡ formatted s
  pub fits : length s ≤ 20
  pub short : (i < 10 ^ 18) ⊎ (2 ^ 64 - 10 ^ 17 < i) → length s < 19
  pub reads : length s < 19 → atoi s ≡ parsed i

itoa_small : (i : ℕ) → i < 100 → itoa i ≡ formatted (small i)
unfolding itoa format_int
itoa_small i h = ground arith

itoa_bits :
    (i : ℕ) (s : List ℕ)
    → 100 ≤ i
    → format_bits [] i 10 (is_negative i) false ≡ formatted ([], s)
    → itoa i ≡ formatted s
unfolding itoa format_int
itoa_bits i s h e = ground arith

one_digit : (i : ℕ) → i < 10 → Decimal i (get_or digits i 0 ∷ [])
unfolding atoi_loop
one_digit i h = record {
  ch = get_or digits i 0;
  s = [];
  shape = refl;
  is_digit = omega (arith, digits_small i h);
  reads = λ s0.
      read_digit s0 0 i _ [] (digits_small i h) h (omega arith)
      ∙ ap parsed {x = 0 * 10 + i} {y = i} (omega arith);
}

two_digits : (i : ℕ) → i < 100 → Decimal i (smalls_at (i * 2) ∷ smalls_at (i * 2 + 1) ∷ [])
unfolding atoi_loop
two_digits i h = record {
  ch = smalls_at (i * 2);
  s = smalls_at (i * 2 + 1) ∷ [];
  shape = refl;
  is_digit = omega (arith, smalls_tens i h);
  reads = λ s0.
      read_digit s0 0 (i / 10) _ (smalls_at (i * 2 + 1) ∷ []) (smalls_tens i h) (omega arith)
        (omega arith)
      ∙ read_digit s0 (0 * 10 + i / 10) (i % 10) _ [] (smalls_ones i h) (omega arith) (omega arith)
      ∙ ap parsed {x = (0 * 10 + i / 10) * 10 + i % 10} {y = i} (omega arith);
}

small-Decimal : (i : ℕ) → i < 100 → Decimal i (small i) × (length (small i) ≤ 2)
unfolding small
small-Decimal i h = elim (Bool-cases (ltb i 10)) [
  | inl e ↦ rw e (one_digit i (ground arith), omega arith)
  | inr e ↦ rw e (two_digits i h, omega arith)
]

small-Rendered : (i : ℕ) → i < 100 → Rendered i (small i)
small-Rendered i h =
    let (w, l) = small-Decimal i h in
    record {
      returns = itoa_small i h;
      fits = omega (arith, l);
      short = λ _. omega (arith, l);
      reads = atoi-Decimal i (small i) w;
    }

positive-Rendered :
    (i k c : ℕ) (w : Wrote i i false k c)
    → 100 ≤ i
    → i < 2 ^ 63
    → length w.d ≤ 20
    → (i < 10 ^ 18 → length w.d < 19)
    → Rendered i w.d
unfolding add_sign
positive-Rendered i k c w h b f q = record {
  returns = itoa_bits i w.d h (rw (not_negative) w.returns);
  fits = f;
  short = λ r. elim r [ inl x ↦ q x | inr x ↦ absurd (omega arith) ];
  reads = atoi-Decimal i w.d w.decimal;
}
  where
    not_negative : is_negative i ≡ false
    not_negative = ground arith

negate_twice : (i : ℕ) → 0 < i → i < 2 ^ 64 → negate (negate i) ≡ i
negate_twice i h b = omega arith

negative-Rendered :
    (i k c : ℕ) (w : Wrote i (negate i) true k c)
    → 2 ^ 63 ≤ i
    → i < 2 ^ 64
    → length w.d ≤ 19
    → (2 ^ 64 - 10 ^ 17 < i → length w.d < 18)
    → Rendered i (minus ∷ w.d)
unfolding add_sign
negative-Rendered i k c w h b f q = record {
  returns = itoa_bits i (minus ∷ w.d) (omega arith) (rw (negative) w.returns);
  fits = omega arith;
  short = λ r. elim r [ inl x ↦ absurd (omega arith) | inr x ↦ omega (arith, q x) ];
  reads = λ l.
      atoi-minus (negate i) w.d l (omega (arith, ap length w.decimal.shape))
        (w.decimal.reads (minus ∷ w.d))
      ∙ ap parsed (negate_twice i (omega arith) b);
}
  where
    negative : is_negative i ≡ true
    negative = ground arith

-- For every int64 Itoa returns, with a text of at most 20 bytes, so that the array of formatBits has
-- room; and Atoi reads the text as the same int64, if the text is shorter than 19 bytes, as it is
-- for every number above -10 ^ 17 and below 10 ^ 18.
pub itoa-Rendered : (i : ℕ) → i < 2 ^ 64 → (s : List ℕ) × Rendered i s
itoa-Rendered i h = elim (dec_lt i 100) [
  | yes a ↦ (small i, small-Rendered i a)
  | no a ↦ elim (dec_lt i (10 ^ 18)) [
    | yes b ↦
        let w =
          format_bits-Wrote i i false 8 100 refl (omega arith) (omega arith) (omega arith) h in
        (
          w.d,
          positive-Rendered i 8 100 w (omega arith) (omega arith) (omega (arith, w.short))
              (λ _. omega (arith, w.short)),
        )
    | no b ↦ elim (dec_lt i (2 ^ 63)) [
      | yes c ↦
          let w =
            format_bits-Wrote i i false 9 10 refl (omega arith) (omega arith) (omega arith) h in
          (
            w.d,
            positive-Rendered i 9 10 w (omega arith) c (omega (arith, w.short.0))
                (λ x. absurd (omega arith)),
          )
      | no c ↦ elim (dec_lt (2 ^ 64 - 10 ^ 17) i) [
        | yes d ↦
            let w =
              format_bits-Wrote i (negate i) true 8 10 refl (omega arith) (omega arith)
                (omega arith) (omega arith) in
            (
              minus ∷ w.d,
              negative-Rendered i 8 10 w (omega arith) h (omega (arith, w.short.0))
                  (λ _. omega (arith, w.short.1 (omega arith))),
            )
        | no d ↦
            let w =
              format_bits-Wrote i (negate i) true 9 10 refl (omega arith) (omega arith)
                (omega arith) (omega arith) in
            (
              minus ∷ w.d,
              negative-Rendered i 9 10 w (omega arith) h (omega (arith, w.short.1 (omega arith)))
                  (λ x. absurd (omega arith)),
            )
      ]
    ]
  ]
]
