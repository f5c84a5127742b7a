-- ===== src/Xlog/Line.antt =====
-- The lines of xlog/log.go.
use srcrd.Prelude.{
  ℕ, ◌+◌, ◌-◌, ◌*◌, ◌^◌, ◌≤◌, ◌<◌, ◌≡◌, refl, sym, ap, ◌∙◌, inl, inr, Bool, true, false, Option,
  some, List, [], ◌∷◌, ◌++◌, append-nil, append_assoc, take, drop, arith, Bool-cases, if◌then◌else◌,
}
use srcrd.Xbufio.Writer.{Error, IoWrite}
use srcrd.Xlog.{
  Time, Logger, has_date, has_time, field, format_date, format_time, format_header, lacks_newline,
  output,
}
use srcrd.Xlog.Itoa.{tens, fixed, itoa-fixed}

-- A time of the years that four digits hold.
pub record InRange (t : Time) : Type 0 where
  pub year : t.year < 10000
  pub month : t.month ≤ 12
  pub day : t.day ≤ 31
  pub hour : t.hour < 24
  pub min : t.min < 60
  pub sec : t.sec < 60

abbrev pub date_text : Time → List ℕ
date_text t =
    (fixed 4 t.year ++ (b'/' ∷ []))
    ++ (fixed 2 t.month ++ (b'/' ∷ []))
    ++ (fixed 2 t.day ++ (b' ' ∷ []))

abbrev pub clock_text : Time → List ℕ
clock_text t =
    (fixed 2 t.hour ++ (b':' ∷ []))
    ++ (fixed 2 t.min ++ (b':' ∷ []))
    ++ (fixed 2 t.sec ++ (b' ' ∷ []))

-- What comes before the message, and the message with a newline at its end.
abbrev pub header : ℕ → Time → List ℕ
header flag t =
    (if has_date flag then date_text t else []) ++ (if has_time flag then clock_text t else [])

abbrev pub body : List ℕ → List ℕ
body s = if lacks_newline s then s ++ (b'\n' ∷ []) else s

field-fixed :
    (buf : List ℕ) (i wid sep : ℕ)
    → i < 2 ^ 63
    → i < tens wid
    → 1 ≤ wid
    → wid ≤ 20
    → field buf i wid sep ≡ some (buf ++ (fixed wid i ++ (sep ∷ [])))
unfolding field
field-fixed buf i wid sep h f o w =
    rw (itoa-fixed buf i wid h f o w, field) (ap some (append_assoc buf (fixed wid i) (sep ∷ [])))

-- Three fields, one after the other.
three_fields : (buf a b c : List ℕ) → ((buf ++ a) ++ b) ++ c ≡ buf ++ (a ++ b ++ c)
three_fields buf a b c = ap (λ l. l ++ c) (append_assoc buf a b) ∙ append_assoc buf (a ++ b) c

two_digits :
    (buf : List ℕ) (i sep : ℕ)
    → i < 100
    → field buf i 2 sep ≡ some (buf ++ (fixed 2 i ++ (sep ∷ [])))
two_digits buf i sep h =
    field-fixed buf i 2 sep (omega arith) (omega arith) (omega arith) (omega arith)

module _ (buf : List ℕ) (t : Time) (r : InRange t) where
  format_date-some : format_date buf t ≡ some (buf ++ date_text t)
  unfolding format_date
  format_date-some =
      rw
        (
          field-fixed buf t.year 4 b'/' (omega (arith, r.year)) (omega (arith, r.year))
              (omega arith) (omega arith),
          two_digits (buf ++ (fixed 4 t.year ++ (b'/' ∷ []))) t.month b'/' (omega (arith, r.month)),
          two_digits (buf ++ (fixed 4 t.year ++ (b'/' ∷ [])) ++ (fixed 2 t.month ++ (b'/' ∷ [])))
              t.day b' ' (omega (arith, r.day)),
        )
        (ap some (
          three_fields buf (fixed 4 t.year ++ (b'/' ∷ [])) (fixed 2 t.month ++ (b'/' ∷ []))
            (fixed 2 t.day ++ (b' ' ∷ []))))

  format_time-some : format_time buf t ≡ some (buf ++ clock_text t)
  unfolding format_time
  format_time-some =
      rw
        (
          two_digits buf t.hour b':' (omega (arith, r.hour)),
          two_digits (buf ++ (fixed 2 t.hour ++ (b':' ∷ []))) t.min b':' (omega (arith, r.min)),
          two_digits (buf ++ (fixed 2 t.hour ++ (b':' ∷ [])) ++ (fixed 2 t.min ++ (b':' ∷ [])))
              t.sec b' ' (omega (arith, r.sec)),
        )
        (ap some (
          three_fields buf (fixed 2 t.hour ++ (b':' ∷ [])) (fixed 2 t.min ++ (b':' ∷ []))
            (fixed 2 t.sec ++ (b' ' ∷ []))))

  choose_date :
      (b : Bool)
      → (if b then format_date buf t else some buf) ≡ some (buf ++ (if b then date_text t else []))
  choose_date true = format_date-some
  choose_date false = ap some (sym (append-nil buf))

  choose_time :
      (b : Bool)
      → (if b then format_time buf t else some buf) ≡ some (buf ++ (if b then clock_text t else []))
  choose_time true = format_time-some
  choose_time false = ap some (sym (append-nil buf))

format_header-some :
    (flag : ℕ) (t : Time) → InRange t → format_header flag [] t ≡ some (header flag t)
unfolding format_header
format_header-some flag t r =
    rw (choose_date [] t r (has_date flag))
      (choose_time (if has_date flag then date_text t else []) t r (has_time flag))

-- The line that `output` makes.
line_of :
    (h s : List ℕ) → (if lacks_newline s then h ++ s ++ (b'\n' ∷ []) else h ++ s) ≡ h ++ body s
line_of h s = elim (Bool-cases (lacks_newline s)) [
  | inl e ↦ rw e (append_assoc h s (b'\n' ∷ []))
  | inr e ↦ rw e refl
]

lacks-snoc : (s : List ℕ) → lacks_newline (s ++ (b'\n' ∷ [])) ≡ false
lacks-snoc [] = refl
lacks-snoc (c ∷ []) = refl
lacks-snoc (c ∷ d ∷ s) = lacks-snoc (d ∷ s)

lacks-cons : (c : ℕ) (l : List ℕ) → lacks_newline l ≡ false → lacks_newline (c ∷ l) ≡ false
lacks-cons c [] e = absurd (ground arith)
lacks-cons c (d ∷ l) e = e

lacks-append : (h s : List ℕ) → lacks_newline s ≡ false → lacks_newline (h ++ s) ≡ false
lacks-append [] s e = e
lacks-append (c ∷ h) s e = lacks-cons c (h ++ s) (lacks-append h s e)

body_ends : (s : List ℕ) → lacks_newline (body s) ≡ false
body_ends s = elim (Bool-cases (lacks_newline s)) [ inl e ↦ rw e (lacks-snoc s) | inr e ↦ rw e e ]

module _ {S : Type 0} (io : IoWrite S) (now : Time) (s : List ℕ) (l : Logger S)
    (r : InRange now) where
  -- For a time in range, Output gives its writer one line: what the flags ask for of the date and the
  -- time, then the message, which ends in a newline then. What the buffer held before is gone, and the
  -- error is that of the writer.
  pub output-Line :
      (lacks_newline (header l.flag now ++ body s) ≡ false)
      × (output io now s l ≡ (
          let line = header l.flag now ++ body s in
          let q = io l.out line in some (q.0.1, record l { out = q.1; buf = line })))
  unfolding output
  output-Line = (
    lacks-append (header l.flag now) (body s) (body_ends s),
    rw (format_header-some l.flag now r) (
        ap (λ line. let q = io l.out line in some (q.0.1, record l { out = q.1; buf = line }))
          (line_of (header l.flag now) s)),
  )

-- The number that a text of digits stands for.
abbrev number : ℕ → List ℕ → ℕ
number acc [] = acc
number acc (c ∷ s) = number (acc * 10 + (c - b'0')) s

-- The time that a line with a date and a time begins with.
abbrev pub read_time : List ℕ → Time
read_time line = record {
  year = number 0 (take 4 line);
  month = number 0 (take 2 (drop 5 line));
  day = number 0 (take 2 (drop 8 line));
  hour = number 0 (take 2 (drop 11 line));
  min = number 0 (take 2 (drop 14 line));
  sec = number 0 (take 2 (drop 17 line));
}

read_two : (i : ℕ) → i < 100 → number 0 (fixed 2 i) ≡ i
unfolding fixed
read_two i h = omega arith

read_four : (i : ℕ) → i < 10000 → number 0 (fixed 4 i) ≡ i
unfolding fixed
read_four i h = omega arith

-- The same time, number by number.
Time-ext :
    (t u : Time)
    → t.year ≡ u.year
    → t.month ≡ u.month
    → t.day ≡ u.day
    → t.hour ≡ u.hour
    → t.min ≡ u.min
    → t.sec ≡ u.sec
    → t ≡ u
Time-ext t u a b c d e f =
    λ i. record { year = a i; month = b i; day = c i; hour = d i; min = e i; sec = f i }

header-reads :
    (t : Time) (s : List ℕ)
    → InRange t
    → (read_time (header 3 t ++ s) ≡ t) × (drop 20 (header 3 t ++ s) ≡ s)
unfolding fixed
header-reads t s r = (
  Time-ext (read_time (header 3 t ++ s)) t (read_four t.year r.year)
      (read_two t.month (omega (arith, r.month))) (read_two t.day (omega (arith, r.day)))
      (read_two t.hour (omega (arith, r.hour))) (read_two t.min (omega (arith, r.min)))
      (read_two t.sec (omega (arith, r.sec))),
  refl,
)

-- What the writer was given.
pub record Logged {S : Type 0} (io : IoWrite S) (now : Time) (s : List ℕ) (l : Logger S)
    : Type 0 where
  pub result : Option Error × Logger S
  pub returns : output io now s l ≡ some result
  pub written : io l.out result.1.buf ≡ (((io l.out result.1.buf).0.0, result.0), result.1.out)
  pub time : read_time result.1.buf ≡ now
  pub message : drop 20 result.1.buf ≡ body s

-- For a time in range and the standard flags, Output returns, and the time and the message, with the
-- newline that it may lack, can be read from the line that it wrote, at fixed places.
pub output-Logged :
    {S : Type 0} (io : IoWrite S) (now : Time) (s : List ℕ) (out : S) (buf : List ℕ)
    → InRange now
    → Logged io now s (record { flag = 3; out = out; buf = buf })
output-Logged {S} io now s out buf r =
    let l : Logger S = record { flag = 3; out = out; buf = buf } in
    let line = header 3 now ++ body s in
    let q = io out line in
    record {
      result = (q.0.1, record l { out = q.1; buf = line });
      returns = (output-Line io now s l r).1;
      written = refl;
      time = (header-reads now (body s) r).0;
      message = (header-reads now (body s) r).1;
    }
