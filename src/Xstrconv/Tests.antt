-- ===== src/Xstrconv/Tests.antt =====
-- Runs of xstrconv/itoa.go and xstrconv/atoi.go, and each theorem at one of them.
use srcrd.Prelude.{ℕ, ◌-◌, ◌^◌, ◌≡◌, refl, List, [], ◌∷◌, arith}
use srcrd.Xstrconv.Itoa.{
  codes, pairs_loop, last_pair, Formatted, formatted, illegal_base, format_bits, format_int, itoa,
}
use srcrd.Xstrconv.Atoi.{Parsed, parsed, syntax, atoi_loop, atoi_fast, atoi}
use srcrd.Xstrconv.Roundtrip.{Rendered, itoa-Rendered}
use srcrd.Xstrconv.Value.{spec_atoi, atoi-eq-spec_atoi}

-- -1905 as an int64.
abbrev negative_year : ℕ
negative_year = 2 ^ 64 - 1905

writes_year : itoa negative_year ≡ formatted (codes "-1905")
unfolding itoa format_int format_bits pairs_loop last_pair
writes_year = refl

base_two : format_int 300 2 ≡ Formatted.todo
unfolding format_int format_bits
base_two = refl

base_one : format_int 300 1 ≡ illegal_base
unfolding format_int format_bits
base_one = refl

reads_year : atoi (codes "-1905") ≡ parsed negative_year
unfolding atoi atoi_fast atoi_loop
reads_year = refl

reads_letters : atoi (codes "12x") ≡ syntax (codes "12x")
unfolding atoi atoi_fast atoi_loop
reads_letters = refl

-- The largest int64 has 19 digits, and is not read.
largest : itoa (2 ^ 63 - 1) ≡ formatted (codes "9223372036854775807")
unfolding itoa format_int format_bits pairs_loop last_pair
largest = refl

largest_unread : atoi (codes "9223372036854775807") ≡ Parsed.todo
unfolding atoi
largest_unread = refl

itoa-Rendered_example : (s : List ℕ) × Rendered negative_year s
itoa-Rendered_example = itoa-Rendered negative_year (omega arith)

atoi-eq-spec_atoi_example : atoi (b'-' ∷ b'7' ∷ []) ≡ spec_atoi b'-' (b'7' ∷ [])
atoi-eq-spec_atoi_example = atoi-eq-spec_atoi b'-' (b'7' ∷ []) (omega arith) (omega arith)
