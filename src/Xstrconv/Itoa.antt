-- ===== src/Xstrconv/Itoa.antt =====
-- xstrconv/itoa.go: Itoa, FormatInt and formatBits.
use Prim.Native.Char.{code}
use Prim.Native.String.{String}
use srcrd.Prelude.{
  ℕ, zero, suc, ◌+◌, ◌-◌, ◌*◌, ◌/◌, ◌%◌, ◌^◌, Bool, false, not, ◌&&◌, ◌||◌, Option, none, some,
  List, [], ◌∷◌, ◌++◌, get_or, ltb, leb, ◌==◌, if◌then◌else◌,
}

-- The bytes of an ASCII text.
abbrev pub codes : String → List ℕ
codes String.[] = []
codes (String.◌∷◌ c s) = code c ∷ codes s

unfoldable pub digits : List ℕ
digits = codes "0123456789abcdefghijklmnopqrstuvwxyz"

unfoldable pub smalls_string : List ℕ
smalls_string =
    codes
      "00010203040506070809101112131415161718192021222324252627282930313233343536373839404142434445464748495051525354555657585960616263646566676869707172737475767778798081828384858687888990919293949596979899"

abbrev pub n_smalls : ℕ
n_smalls = 100

-- The byte of `smallsString` at an index.
unfoldable pub smalls_at : ℕ → ℕ
unfolding smalls_string
smalls_at k = get_or smalls_string k 0

abbrev pub minus : ℕ
minus = b'-'

-- `-u` on a uint64.
abbrev pub negate : ℕ → ℕ
negate u = (2 ^ 64 - u) % 2 ^ 64

-- `small`, for an `i` below nSmalls.
unfoldable pub small : ℕ → List ℕ
unfolding digits smalls_at
small i =
    if ltb i 10 then get_or digits i 0 ∷ [] else smalls_at (i * 2) ∷ smalls_at (i * 2 + 1) ∷ []

-- The loop of formatBits on fuel. The list is `a[i:]`; the result is `us` at the end, and the list.
unfoldable pub pairs_loop : ℕ → ℕ → List ℕ → Option (ℕ × List ℕ)
pairs_loop zero us a = none
pairs_loop (suc fuel) us a =
    let i = us % 100 * 2 in
    let rest = pairs_loop fuel (us / 100) (smalls_at i ∷ smalls_at (i + 1) ∷ a) in
    if ltb us 100 then some (us, a) else rest

-- The part of formatBits after the loop: one or two digits, and the sign.
unfoldable pub last_pair : ℕ → List ℕ → List ℕ
last_pair us a =
    let a' = smalls_at (us * 2 + 1) ∷ a in if leb 10 us then smalls_at (us * 2) ∷ a' else a'

unfoldable pub add_sign : Bool → List ℕ → List ℕ
add_sign neg a = if neg then minus ∷ a else a

-- A result, one of the two panics of formatBits, or a loop that goes on.
pub data Formatted {ℓ} (A : Type ℓ) : Type ℓ where
  formatted : A → Formatted A
  illegal_base todo unfinished : Formatted A

-- `formatBits`: `d` and `s`. A base other than 10 is not done there.
unfoldable pub format_bits : List ℕ → ℕ → ℕ → Bool → Bool → Formatted (List ℕ × List ℕ)
unfolding add_sign
format_bits dst u base neg append =
    if ltb base 2 || ltb 36 base
    then illegal_base
    else if not (base == 10)
    then todo
    else elim (pairs_loop 10 (if neg then negate u else u) []) [
      | none ↦ unfinished
      | some (us, a) ↦
          let a' = add_sign neg (last_pair us a) in
          if append then formatted (dst ++ a', []) else formatted ([], a')
    ]

-- The second result.
abbrev pub text_of : Formatted (List ℕ × List ℕ) → Formatted (List ℕ)
text_of (formatted (d, s)) = formatted s
text_of illegal_base = illegal_base
text_of todo = todo
text_of unfinished = unfinished

abbrev pub is_negative : ℕ → Bool
is_negative i = leb (2 ^ 63) i

unfoldable pub format_int : ℕ → ℕ → Formatted (List ℕ)
unfolding small format_bits
format_int i base =
    if not (is_negative i) && ltb i n_smalls && base == 10
    then formatted (small i)
    else text_of (format_bits [] i base (is_negative i) false)

unfoldable pub itoa : ℕ → Formatted (List ℕ)
unfolding format_int
itoa i = format_int i 10
