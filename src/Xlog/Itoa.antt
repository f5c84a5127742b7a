-- ===== src/Xlog/Itoa.antt =====
-- The numbers of xlog/log.go: what `itoa` writes.
use native.Mathlib.Decide.{dec_lt}
use srcrd.Prelude.{
  ℕ, zero, suc, ◌+◌, ◌-◌, ◌*◌, ◌/◌, ◌%◌, ◌^◌, ◌≤◌, ◌<◌, ◌≡◌, refl, sym, ap, ◌∙◌, ◌⊎◌, inl, inr,
  true, false, ◌||◌, Option, some, List, [], ◌∷◌, ◌++◌, append-nil, append_assoc, length,
  length-append, ltb, leb, arith, Bool-cases, lt→ltb,
}
use srcrd.Xlog.{itoa_loop, itoa}

-- Ten, `k` times over.
abbrev pub tens : ℕ → ℕ
tens zero = 1
tens (suc k) = 10 * tens k

-- The last `k` decimal digits of `i`.
unfoldable pub fixed : ℕ → ℕ → List ℕ
fixed zero i = []
fixed (suc k) i = fixed k (i / 10) ++ ((b'0' + i % 10) ∷ [])

pub length-fixed : (k i : ℕ) → length (fixed k i) ≡ k
unfolding fixed
length-fixed zero i = refl
length-fixed (suc k) i =
    length-append (fixed k (i / 10)) ((b'0' + i % 10) ∷ []) ∙ omega (arith, length-fixed k (i / 10))

-- What the loop does to `i`: it comes to write `suc p` digits in all before `b`.
record Looped (c i wid : ℕ) (b : List ℕ) (out : Option (ℕ × List ℕ)) : Type 0 where
  p : ℕ
  digit : ℕ
  rest : List ℕ
  returns : out ≡ some (digit, rest)
  small : digit < 10
  text : ((b'0' + digit) ∷ rest) ≡ fixed (suc p) i ++ b
  size : length rest ≡ p + length b
  short : p ≤ c
  wide : wid ≤ suc p
  holds : i < tens (suc p)
  tight : (p ≡ 0) ⊎ (suc p ≡ wid) ⊎ (tens p ≤ i)

loop_stop :
    (fuel i wid : ℕ) (b : List ℕ)
    → (leb 10 i || ltb 1 wid) ≡ false
    → itoa_loop (suc fuel) i wid b ≡ some (i, b)
unfolding itoa_loop
loop_stop fuel i wid b e = rw e

loop_turn :
    (fuel i wid : ℕ) (b : List ℕ)
    → (leb 10 i || ltb 1 wid) ≡ true
    → length b < 20
    → itoa_loop (suc fuel) i wid b ≡ itoa_loop fuel (i / 10) (wid - 1) ((b'0' + i % 10) ∷ b)
unfolding itoa_loop
loop_turn fuel i wid b e h =
    rw (e, lt→ltb (length b) 20 h)
      (ap (λ d. itoa_loop fuel (i / 10) (wid - 1) (d ∷ b)) {x = (b'0' + i - i / 10 * 10) % 256}
        {y = b'0' + i % 10} (omega arith))

stop-Looped :
    (fuel c i wid : ℕ) (b : List ℕ)
    → (leb 10 i || ltb 1 wid) ≡ false
    → Looped c i wid b (itoa_loop (suc fuel) i wid b)
unfolding fixed
stop-Looped fuel c i wid b e = record {
  p = 0;
  digit = i;
  rest = b;
  returns = loop_stop fuel i wid b e;
  small = ground arith;
  text = ap (λ d. (b'0' + d) ∷ b) {x = i} {y = i % 10} (ground arith);
  size = omega arith;
  short = omega arith;
  wide = ground arith;
  holds = ground arith;
  tight = inl refl;
}

itoa_loop-Looped :
    (fuel c i wid : ℕ) (b : List ℕ)
    → c < fuel
    → i < tens (suc c)
    → wid ≤ suc c
    → length b + c < 20
    → Looped c i wid b (itoa_loop fuel i wid b)
unfolding fixed
itoa_loop-Looped zero c i wid b f h w l = absurd (omega arith)
itoa_loop-Looped (suc fuel) zero i wid b f h w l = stop-Looped fuel 0 i wid b (ground arith)
itoa_loop-Looped (suc fuel) (suc c) i wid b f h w l = elim (Bool-cases (leb 10 i || ltb 1 wid)) [
  | inl e ↦
      let more =
        itoa_loop-Looped fuel c (i / 10) (wid - 1) ((b'0' + i % 10) ∷ b) (omega arith) (omega arith)
          (omega arith) (omega arith) in
      record {
        p = suc more.p;
        digit = more.digit;
        rest = more.rest;
        returns = loop_turn fuel i wid b e (omega arith) ∙ more.returns;
        small = more.small;
        text =
            more.text ∙ sym (append_assoc (fixed (suc more.p) (i / 10)) ((b'0' + i % 10) ∷ []) b);
        size = omega (arith, more.size);
        short = omega (arith, more.short);
        wide = omega (arith, more.wide);
        holds = omega (arith, more.holds);
        tight = ground (arith, more.tight, more.wide);
      }
  | inr e ↦ stop-Looped fuel (suc c) i wid b e
]

-- A number as `itoa` writes it: as many digits as it has, and at least `wid`.
pub record Padded (buf : List ℕ) (i wid : ℕ) (out : Option (List ℕ)) : Type 0 where
  pub k : ℕ
  pub returns : out ≡ some (buf ++ fixed k i)
  pub some_digit : 1 ≤ k
  pub wide : wid ≤ k
  pub holds : i < tens k
  pub tight : (k ≡ 1) ⊎ (k ≡ wid) ⊎ (tens (k - 1) ≤ i)

itoa-loop :
    (buf : List ℕ) (i wid : ℕ) {d : ℕ} {b : List ℕ}
    → itoa_loop 21 i wid [] ≡ some (d, b)
    → d < 10
    → length b < 20
    → itoa buf i wid ≡ some (buf ++ ((b'0' + d) ∷ b))
unfolding itoa
itoa-loop buf i wid {d} {b} e h l =
    rw (e, itoa)
      (rw (lt→ltb (length b) 20 l)
        (ap (λ c. some (buf ++ (c ∷ b))) {x = (b'0' + d) % 256} {y = b'0' + d} (omega arith)))

-- For an int that is not negative and a width of at most 20, `itoa` does not leave its array. It appends
-- the digits of the number, with zeros before them up to the width and no other.
pub itoa-Padded :
    (buf : List ℕ) (i wid : ℕ) → i < 2 ^ 63 → wid ≤ 20 → Padded buf i wid (itoa buf i wid)
itoa-Padded buf i wid h w =
    let l = itoa_loop-Looped 21 19 i wid [] (omega arith) (omega arith) w (omega arith) in
    record {
      k = suc l.p;
      returns =
          itoa-loop buf i wid l.returns l.small (omega (arith, l.size, l.short))
          ∙ ap (λ b. some (buf ++ b)) (l.text ∙ append-nil (fixed (suc l.p) i));
      some_digit = omega arith;
      wide = l.wide;
      holds = l.holds;
      tight = ground (arith, l.tight);
    }

tens_mono : (a b : ℕ) → b ≤ a → tens b ≤ tens a
tens_mono zero zero h = omega arith
tens_mono zero (suc b) h = absurd (omega arith)
tens_mono (suc a) zero h = omega (arith, tens_mono a zero (omega arith))
tens_mono (suc a) (suc b) h = omega (arith, tens_mono a b (omega arith))

-- A number that fits into the width takes just the width.
pub itoa-fixed :
    (buf : List ℕ) (i wid : ℕ)
    → i < 2 ^ 63
    → i < tens wid
    → 1 ≤ wid
    → wid ≤ 20
    → itoa buf i wid ≡ some (buf ++ fixed wid i)
itoa-fixed buf i wid h f o w =
    let p = itoa-Padded buf i wid h w in
    let e : p.k ≡ wid = elim (dec_lt wid p.k) [
      | yes l ↦ omega (arith, p.wide, p.tight, tens_mono (p.k - 1) wid (omega arith))
      | no l ↦ omega (arith, p.wide)
    ] in
    p.returns ∙ ap (λ k. some (buf ++ fixed k i)) e
