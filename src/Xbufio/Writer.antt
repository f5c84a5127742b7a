-- ===== src/Xbufio/Writer.antt =====
-- xbufio/bufio_writer.go: the buffered writer. The io.Writer below it comes from outside: it is a
-- function on a state of its own. Bytes are numbers, which the writer only moves.
pub mod Buffer
pub mod Flush
pub mod Loop
pub mod Write
pub mod Session
pub mod Nested
mod Tests
use srcrd.Prelude.{
  ℕ, zero, suc, ◌+◌, ◌-◌, Bool, true, false, ◌&&◌, Option, none, some, List, ◌++◌, length, take,
  drop, replicate, min, ltb, ◌==◌, if◌then◌else◌,
}

-- `io.ErrShortWrite`, or an error of the underlying writer.
pub data Error : Type 0 where
  short_write : Error
  other : ℕ → Error

-- `Writer`; `wr` is the state of the underlying writer.
pub record Writer (S : Type 0) : Type 0 where
  pub err : Option Error
  pub buf : List ℕ
  pub n : ℕ
  pub wr : S

-- `io.Writer.Write`: the count, the error, and the state afterwards.
abbrev pub IoWrite : Type 0 → Type 0
IoWrite S = S → List ℕ → (ℕ × Option Error) × S

-- The count and the effect of `copy(buf[n:], p)`.
abbrev pub copied : List ℕ → ℕ → List ℕ → ℕ
copied buf n p = min (length buf - n) (length p)

pub copy_at : List ℕ → ℕ → List ℕ → List ℕ
copy_at buf n p = take n buf ++ (take (copied buf n p) p ++ drop (n + copied buf n p) buf)

-- `copy(buf[0:m-n], buf[n:m])`
pub shift : ℕ → ℕ → List ℕ → List ℕ
shift n m buf = take (m - n) (drop n buf) ++ drop (m - n) buf

-- The error of a write of `m` bytes that took `n`.
abbrev pub or_short : ℕ → ℕ → Option Error → Option Error
or_short n m (some e) = some e
or_short n m none = if ltb n m then some short_write else none

abbrev pub default_buf_size : ℕ
default_buf_size = 4096

abbrev pub is_ok : Option Error → Bool
is_ok none = true
is_ok (some e) = false

module _ {S : Type 0} where
  -- `Available`
  abbrev pub available : Writer S → ℕ
  available b = length b.buf - b.n

  -- `NewWriterSize` on a writer that is not a `Writer`; a size that is not positive is zero here.
  pub new_writer_size : S → ℕ → Writer S
  new_writer_size w size = record {
    err = none;
    buf = replicate (if size == 0 then default_buf_size else size) 0;
    n = 0;
    wr = w;
  }

  -- `Flush` after its write, with the count, the error and the state of the underlying writer.
  pub flushed : ℕ → Option Error → S → Writer S → Option Error × Writer S
  flushed n none s b = (none, record b { n = 0; wr = s })
  flushed n (some e) s b = (
    some e,
    record {
      err = some e;
      buf = if ltb 0 n && ltb n b.n then shift n b.n b.buf else b.buf;
      n = b.n - n;
      wr = s;
    },
  )

  -- `Write` after its loop.
  pub write_rest : ℕ → List ℕ → Writer S → (ℕ × Option Error) × Writer S
  write_rest nn p b = elim b.err [
    | some e ↦ ((nn, some e), b)
    | none ↦
        let n = copied b.buf b.n p in
        ((nn + n, none), record b { buf = copy_at b.buf b.n p; n = b.n + n })
  ]

module _ {S : Type 0} (io : IoWrite S) where
  -- `Flush`
  pub flush : Writer S → Option Error × Writer S
  unfolding flushed
  flush b = elim b.err [
    | some e ↦ (some e, b)
    | none ↦
        if b.n == 0
        then (none, b)
        else let ((n, err), s) = io b.wr (take b.n b.buf) in flushed n (or_short n b.n err) s b
  ]

  -- The body of the loop of `Write`: the count of bytes that leave `p`.
  pub write_round : List ℕ → Writer S → ℕ × Writer S
  unfolding flush
  write_round p b =
      if b.n == 0
      then (let ((n, err), s) = io b.wr p in (n, record b { err = err; wr = s }))
      else (let n = copied b.buf b.n p in
          (n, (flush (record b { buf = copy_at b.buf b.n p; n = b.n + n })).1))

  -- The loop of `Write` on fuel: the bytes written, the bytes left, and the writer.
  pub write_loop : ℕ → List ℕ → ℕ → Writer S → Option (ℕ × List ℕ × Writer S)
  unfolding write_round
  write_loop zero p nn b = none
  write_loop (suc fuel) p nn b =
      let (n, b') = write_round p b in
      let rest = write_loop fuel (drop n p) (nn + n) b' in
      if ltb (available b) (length p) && is_ok b.err then rest else some (nn, p, b)

  -- `Write`; `none` stands for a loop that goes on.
  pub write : List ℕ → Writer S → Option ((ℕ × Option Error) × Writer S)
  unfolding write_loop write_rest
  write p b = elim (write_loop 3 p 0 b) [
    | none ↦ none
    | some (nn, q, b') ↦ some (write_rest nn q b')
  ]
