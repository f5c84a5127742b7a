-- ===== src/Xbufio/Writer/Nested.antt =====
-- A Writer of xbufio/bufio_writer.go on another: NewWriterSize on an io.Writer that is a Writer itself.
use srcrd.Prelude.{
  ℕ, ◌≤◌, ◌<◌, false, leb→le, length-replicate, arith, ◌≡◌, refl, inl, inr, Bool-cases, some, List,
  ◌++◌, length, leb, if◌then◌else◌, Option, none,
}
use srcrd.Xbufio.Writer.{Error, Writer, IoWrite, new_writer_size, write}
use srcrd.Xbufio.Writer.Flush.{IsDocumented, IsValid, stream}
use srcrd.Xbufio.Writer.Write.{write-Wrote}
use srcrd.Xbufio.Writer.Session.{join, write_all, write_all-Sent, write_all_new}

-- What `NewWriterSize` gives on a Writer: that one, or a new one on it.
pub data Made (S T : Type 0) : Type 0 where
  reused : Writer S → Made S T
  made : Writer T → Made S T

-- `NewWriterSize`, on a Writer that is `w` as an io.Writer.
pub new_on_writer : {S T : Type 0} → Writer S → T → ℕ → Made S T
new_on_writer b w size = if leb size (length b.buf) then reused b else made (new_writer_size w size)

module _ {S : Type 0} {io : IoWrite S} {sink : S → List ℕ} (doc : IsDocumented io sink) where
  -- A valid Writer as an io.Writer: its method `Write`, which returns.
  abbrev pub Valid : Type 0
  Valid = (b : Writer S) × IsValid b

  pub nested : IoWrite Valid
  nested (b, v) p = let w = write-Wrote doc p b v in ((w.k, w.b'.err), (w.b', w.took.valid))

  nested-write : (s : Valid) (p : List ℕ) → write io p s.0 ≡ some ((nested s p).0, (nested s p).1.0)
  unfolding nested
  nested-write (b, v) p = (write-Wrote doc p b v).returns

  nested-IsDocumented : IsDocumented nested (λ s. stream sink s.0)
  unfolding nested
  nested-IsDocumented = record {
    bounded = λ s p. (write-Wrote doc p s.0 s.1).took.few;
    sunk = λ s p. (write-Wrote doc p s.0 s.1).took.grown;
    complete = λ s p e. (write-Wrote doc p s.0 s.1).all e;
  }

  -- A client writes pieces to what NewWriterSize gave and flushes that: the error, and the bytes that have
  -- come to the data stream of the Writer, or, on a new Writer, to the Writer below it.
  pub write_made : List (List ℕ) → Made S Valid → Option (Option Error × List ℕ)
  write_made ps (reused b) = elim (write_all io ps b) [
    | none ↦ none
    | some (e, b') ↦ some (e, sink b'.wr)
  ]
  write_made ps (made b) = elim (write_all nested ps b) [
    | none ↦ none
    | some (e, b') ↦ some (e, stream sink b'.wr.0)
  ]

  -- The client comes to its end, and without an error all pieces are behind what the Writer held.
  pub record Piped (b : Writer S) (ps : List (List ℕ)) (out : Option (Option Error × List ℕ))
      : Type 0 where
    pub e : Option Error
    pub bytes : List ℕ
    pub returns : out ≡ some (e, bytes)
    pub all : e ≡ none → bytes ≡ stream sink b ++ join ps

  reused-Piped :
      (b : Writer S) (ps : List (List ℕ)) → IsValid b → Piped b ps (write_made ps (reused b))
  unfolding write_made
  reused-Piped b ps v =
      let w = write_all-Sent doc ps b v in
      record {
        e = w.e;
        bytes = sink w.b'.wr;
        returns = rw (w.returns, write_made) refl;
        all = w.sent;
      }

  made-Piped :
      (b : Writer S) (v : IsValid b) (size : ℕ) (ps : List (List ℕ))
      → Piped b ps (write_made ps (made (new_writer_size (b, v) size)))
  unfolding write_made
  made-Piped b v size ps =
      let w = write_all_new nested-IsDocumented (b, v) size ps in
      record {
        e = w.e;
        bytes = stream sink w.b'.wr.0;
        returns = rw (w.returns, write_made) refl;
        all = w.sent;
      }

  -- The Writer itself, with a buffer that is large enough; or one on it with a buffer of just the size,
  -- where the first one's was not large enough.
  abbrev pub Suits : Valid → ℕ → Made S Valid → Type 0
  Suits b size (reused b') = (b' ≡ b.0) × (size ≤ length b'.buf)
  Suits b size (made b') = (b'.wr ≡ b) × (length b.0.buf < size) × (length b'.buf ≡ size)

  made-Suits :
      (b : Valid) (size : ℕ)
      → leb size (length b.0.buf) ≡ false
      → Suits b size (made (new_writer_size b size))
  unfolding new_writer_size
  made-Suits b size e =
      (refl, ground (arith, e), ground (arith, e, length-replicate {A = ℕ} size 0))

  -- NewWriterSize on a valid Writer over a writer that does as documented, for any size: it gives that
  -- Writer if its buffer has the size, and else, only then, a new one on it whose buffer has the size. A
  -- client that writes pieces to what it gives, stops at an error and flushes at the end, comes to its
  -- end; without an error all pieces are, in order, behind the bytes that the Writer had taken before.
  pub new_on_writer-Piped :
      (b : Writer S) (v : IsValid b) (size : ℕ) (ps : List (List ℕ))
      → Suits (b, v) size (new_on_writer b (b, v) size)
        × Piped b ps (write_made ps (new_on_writer b (b, v) size))
  unfolding new_on_writer
  new_on_writer-Piped b v size ps = elim (Bool-cases (leb size (length b.buf))) [
    | inl e ↦ rw e ((refl, leb→le size (length b.buf) e), reused-Piped b ps v)
    | inr e ↦ rw e (made-Suits (b, v) size e, made-Piped b v size ps)
  ]
