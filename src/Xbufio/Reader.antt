-- ===== src/Xbufio/Reader.antt =====
-- xbufio/bufio_reader.go: the buffered reader. The io.Reader below it comes from outside: it is a
-- function on a state of its own. Bytes are numbers, which the reader only moves.
pub mod Gave
pub mod Read
pub mod Nested
mod Tests
use srcrd.Prelude.{
  ℕ, ◌+◌, ◌-◌, Option, none, some, List, [], ◌∷◌, ◌++◌, length, get_or, take, drop, replicate, min,
  ltb, leb, ◌==◌, if◌then◌else◌,
}

-- `Reader`; `rd` is the state of the underlying reader, an error is its number, and -1 is `none`.
pub record Reader (S : Type 0) : Type 0 where
  pub buf : List ℕ
  pub rd : S
  pub r : ℕ
  pub w : ℕ
  pub err : Option ℕ
  pub last_byte : Option ℕ
  pub last_rune_size : Option ℕ

-- `io.Reader.Read` on a slice of this length: the bytes it puts in front, the error, and the state
-- afterwards. The count is the number of bytes, so that it is not negative.
abbrev pub IoRead : Type 0 → Type 0
IoRead S = S → ℕ → (List ℕ × Option ℕ) × S

abbrev pub min_read_buffer_size : ℕ
min_read_buffer_size = 16

-- What `int(p[n-1])` does to `lastByte`, if there are bytes.
abbrev pub last_or : List ℕ → Option ℕ → Option ℕ
last_or [] d = d
last_or (x ∷ xs) d = last_or xs (some x)

module _ {S : Type 0} where
  abbrev pub reset : List ℕ → S → Reader S
  reset buf rd = record {
    buf = buf;
    rd = rd;
    r = 0;
    w = 0;
    err = none;
    last_byte = none;
    last_rune_size = none;
  }

  -- `NewReaderSize` on a reader that is not a `Reader`.
  pub new_reader_size : S → ℕ → Reader S
  new_reader_size rd size =
      reset (replicate (if ltb size min_read_buffer_size then min_read_buffer_size else size) 0) rd

  -- `Buffered`
  abbrev pub buffered : Reader S → ℕ
  buffered b = b.w - b.r

  -- No bytes, and `readErr`.
  pub read_err : Reader S → (List ℕ × Option ℕ) × Reader S
  read_err b = (([], b.err), record b { err = none })

  -- The last part of `Read`: out of a buffer that is not empty, into a slice of length `m`.
  pub read_copy : ℕ → Reader S → (List ℕ × Option ℕ) × Reader S
  read_copy m b =
      let n = min m (buffered b) in
      (
        (take n (drop b.r b.buf), none),
        record b {
          r = b.r + n;
          last_byte = some (get_or b.buf (b.r + n - 1) 0);
          last_rune_size = none;
        },
      )

module _ {S : Type 0} (io : IoRead S) where
  -- The large read past an empty buffer.
  pub read_direct : ℕ → Reader S → (List ℕ × Option ℕ) × Reader S
  read_direct m b =
      let ((bs, e), s) = io b.rd m in
      (
        (bs, e),
        record b {
          rd = s;
          err = none;
          last_byte = last_or bs b.last_byte;
          last_rune_size = if length bs == 0 then b.last_rune_size else none;
        },
      )

  -- The one read into an empty buffer, and what follows.
  pub read_fill : ℕ → Reader S → (List ℕ × Option ℕ) × Reader S
  unfolding read_err read_copy
  read_fill m b =
      let ((bs, e), s) = io b.rd (length b.buf) in
      let b' = record b {
        buf = bs ++ drop (length bs) b.buf;
        rd = s;
        r = 0;
        w = length bs;
        err = e;
      } in
      if length bs == 0 then read_err b' else read_copy m b'

  -- `Read` on an empty buffer.
  pub read_empty : ℕ → Reader S → (List ℕ × Option ℕ) × Reader S
  unfolding read_err read_direct read_fill
  read_empty m b = elim b.err [
    | some e ↦ read_err b
    | none ↦ if leb (length b.buf) m then read_direct m b else read_fill m b
  ]

  -- `Read` into a slice of length `m`: the bytes in front of the slice, and the error.
  pub read : ℕ → Reader S → (List ℕ × Option ℕ) × Reader S
  unfolding read_err read_copy read_empty
  read m b =
      if m == 0
      then if ltb 0 (buffered b) then (([], none), b) else read_err b
      else if b.r == b.w
      then read_empty m b
      else read_copy m b
