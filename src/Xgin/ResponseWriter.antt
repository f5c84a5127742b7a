-- ===== src/Xgin/ResponseWriter.antt =====
-- xgin/response_writer.go: the writer that sends the header before the body. The http.ResponseWriter
-- below it comes from outside: what it answers to a write depends on the calls that it got, which are
-- its state here.
pub mod Header
mod Tests
use srcrd.Prelude.{
  ℕ, ◌+◌, ◌-◌, Bool, true, false, not, ◌&&◌, Option, none, some, List, [], ◌∷◌, ◌++◌, ltb, ◌==◌,
  if◌then◌else◌,
}

-- A call of the writer below.
pub data Sent : Type 0 where
  header : ℕ → Sent
  body : List ℕ → Sent
  hijacked flushed : Sent

-- `responseWriter`; `sent` is the writer below. A `size` of -1 is `none`.
pub record ResponseWriter : Type 0 where
  pub size : Option ℕ
  pub status : ℕ
  pub sent : List Sent

abbrev pub default_status : ℕ
default_status = 200

-- `reset`
unfoldable pub reset : List Sent → ResponseWriter → ResponseWriter
reset writer w = record { size = none; status = default_status; sent = writer }

-- `Written`
abbrev pub written : ResponseWriter → Bool
written w = elim w.size [ none ↦ false | some n ↦ true ]

-- `WriteHeader`, where a code that is not positive is zero; it also logs a warning.
pub write_header : ℕ → ResponseWriter → ResponseWriter
write_header code w = if ltb 0 code && not (w.status == code) then record w { status = code } else w

-- `WriteHeaderNow`
pub write_header_now : ResponseWriter → ResponseWriter
write_header_now w = elim w.size [
  | some n ↦ w
  | none ↦ record w { size = some 0; sent = w.sent ++ (header w.status ∷ []) }
]

-- `w.size += n`
abbrev pub add_size : ℕ → Option ℕ → Option ℕ
add_size n none = if n == 0 then none else some (n - 1)
add_size n (some k) = some (k + n)

module _ (answer : List Sent → List ℕ → ℕ × Option ℕ) where
  -- `Write`, and `WriteString` on the bytes of the string.
  pub write : List ℕ → ResponseWriter → (ℕ × Option ℕ) × ResponseWriter
  unfolding write_header_now
  write p w =
      let w' = write_header_now w in
      let (n, e) = answer w'.sent p in
      ((n, e), record w' { size = add_size n w'.size; sent = w'.sent ++ (body p ∷ []) })

-- `Hijack`, up to the call below.
pub hijack : ResponseWriter → ResponseWriter
hijack w = record w {
  size = elim w.size [ none ↦ some 0 | some n ↦ some n ];
  sent = w.sent ++ (hijacked ∷ []);
}

-- `Flush`
pub flush : ResponseWriter → ResponseWriter
unfolding write_header_now
flush w = let w' = write_header_now w in record w' { sent = w'.sent ++ (flushed ∷ []) }
