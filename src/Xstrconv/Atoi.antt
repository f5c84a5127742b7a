-- ===== src/Xstrconv/Atoi.antt =====
-- xstrconv/atoi.go and atoi_err.go: Atoi on a 64-bit machine, where intSize is 64.
use srcrd.Prelude.{
  ℕ, ◌+◌, ◌-◌, ◌*◌, ◌%◌, ◌^◌, Bool, ◌||◌, List, [], ◌∷◌, length, ltb, ◌==◌, if◌then◌else◌,
}
use srcrd.Xstrconv.Itoa.{minus, negate}

-- A number, `NumError{"Atoi", s, ErrSyntax}`, or the error of the slow path, which is not done there.
pub data Parsed : Type 0 where
  parsed : ℕ → Parsed
  syntax : List ℕ → Parsed
  todo : Parsed

abbrev pub plus : ℕ
plus = b'+'

-- `ch -= '0'` on a byte.
abbrev pub digit : ℕ → ℕ
digit ch = (ch + 256 - b'0') % 256

-- The loop over the bytes of `s`; `s0` is the text of the error.
unfoldable pub atoi_loop : List ℕ → ℕ → List ℕ → Parsed
atoi_loop s0 n [] = parsed n
atoi_loop s0 n (ch ∷ s) =
    if ltb 9 (digit ch) then syntax s0 else atoi_loop s0 ((n * 10 + digit ch) % 2 ^ 64) s

abbrev pub is_sign : ℕ → Bool
is_sign ch = ch == minus || ch == plus

-- `n = -n` for a text that starts with a minus.
abbrev pub with_sign : ℕ → Parsed → Parsed
with_sign ch (parsed n) = if ch == minus then parsed (negate n) else parsed n
with_sign ch (syntax s) = syntax s
with_sign ch todo = todo

-- The fast path, on a text that is not empty.
unfoldable pub atoi_fast : ℕ → List ℕ → Parsed
unfolding atoi_loop
atoi_fast ch s =
    if is_sign ch
    then if length s == 0 then syntax (ch ∷ s) else with_sign ch (atoi_loop (ch ∷ s) 0 s)
    else with_sign ch (atoi_loop (ch ∷ s) 0 (ch ∷ s))

unfoldable pub atoi : List ℕ → Parsed
unfolding atoi_fast
atoi [] = todo
atoi (ch ∷ s) = if ltb (length (ch ∷ s)) 19 then atoi_fast ch s else todo
