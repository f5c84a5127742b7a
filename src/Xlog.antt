-- ===== src/Xlog.antt =====
-- xlog/log.go: the logger. The writer below it comes from outside: it is a function on a state of its own.
-- A time is the six numbers that Date and Clock give, of which the year is not negative.
pub mod Itoa
pub mod Line
mod Tests
use srcrd.Prelude.{
  ℕ, zero, suc, ◌+◌, ◌-◌, ◌*◌, ◌/◌, ◌%◌, Bool, true, not, ◌&&◌, ◌||◌, Option, none, some, List, [],
  ◌∷◌, ◌++◌, length, ltb, leb, ◌==◌, if◌then◌else◌,
}
use srcrd.Xbufio.Writer.{Error, IoWrite}

-- A panic ends the call.
infixl 5 ◌>>=◌
abbrev ◌>>=◌ : {A B : Type 0} → Option A → (A → Option B) → Option B
none >>= f = none
some a >>= f = f a

pub record Time : Type 0 where
  pub year : ℕ
  pub month : ℕ
  pub day : ℕ
  pub hour : ℕ
  pub min : ℕ
  pub sec : ℕ

-- `Logger`, less its mutex; `out` is the state of the writer.
pub record Logger (S : Type 0) : Type 0 where
  pub flag : ℕ
  pub out : S
  pub buf : List ℕ

-- `New`
abbrev pub new : {S : Type 0} → S → ℕ → Logger S
new out flag = record { flag = flag; out = out; buf = [] }

-- `flag&Ldate != 0` and `flag&Ltime != 0`
abbrev pub has_date : ℕ → Bool
has_date flag = flag % 2 == 1

abbrev pub has_time : ℕ → Bool
has_time flag = flag / 2 % 2 == 1

-- The loop of `itoa` on fuel. The list is `b[bp+1:]`; none is a write before the array of 20 bytes. A
-- width below one is zero here: the loop only asks whether it is above one.
pub itoa_loop : ℕ → ℕ → ℕ → List ℕ → Option (ℕ × List ℕ)
itoa_loop zero i wid b = none
itoa_loop (suc fuel) i wid b =
    let q = i / 10 in
    let rest = itoa_loop fuel q (wid - 1) ((b'0' + i - q * 10) % 256 ∷ b) in
    if leb 10 i || ltb 1 wid then (if ltb (length b) 20 then rest else none) else some (i, b)

pub itoa : List ℕ → ℕ → ℕ → Option (List ℕ)
itoa buf i wid = elim (itoa_loop 21 i wid []) [
  | none ↦ none
  | some (i', b) ↦ if ltb (length b) 20 then some (buf ++ ((b'0' + i') % 256 ∷ b)) else none
]

-- A number and the byte after it, as `formatHeader` writes them.
pub field : List ℕ → ℕ → ℕ → ℕ → Option (List ℕ)
field buf i wid sep = elim (itoa buf i wid) [ none ↦ none | some b ↦ some (b ++ (sep ∷ [])) ]

pub format_date : List ℕ → Time → Option (List ℕ)
format_date buf t = do a ← field buf t.year 4 b'/'; b ← field a t.month 2 b'/'; field b t.day 2 b' '

pub format_time : List ℕ → Time → Option (List ℕ)
format_time buf t = do a ← field buf t.hour 2 b':'; b ← field a t.min 2 b':'; field b t.sec 2 b' '

-- `formatHeader`
pub format_header : ℕ → List ℕ → Time → Option (List ℕ)
format_header flag buf t = do
  a ← if has_date flag then format_date buf t else some buf
  if has_time flag then format_time a t else some a

-- `len(s) == 0 || s[len(s)-1] != '\n'`
abbrev pub lacks_newline : List ℕ → Bool
lacks_newline [] = true
lacks_newline (c ∷ []) = not (c == b'\n')
lacks_newline (c ∷ d ∷ s) = lacks_newline (d ∷ s)

module _ {S : Type 0} (io : IoWrite S) where
  -- `Output` at the time `now`: the error and the logger; none is a panic of itoa.
  pub output : Time → List ℕ → Logger S → Option (Option Error × Logger S)
  output now s l = do
    h ← format_header l.flag [] now
    let line = if lacks_newline s then h ++ s ++ (b'\n' ∷ []) else h ++ s
    let r = io l.out line
    some (r.0.1, record l { out = r.1; buf = line })
