-- ===== src/Xbufio/Reader/Nested.antt =====
-- A Reader of xbufio/bufio_reader.go on another: NewReaderSize on an io.Reader that is a Reader itself.
use srcrd.Prelude.{
  ℕ, ◌≤◌, ◌<◌, ◌≡◌, refl, inl, inr, Bool-cases, List, ◌++◌, length, length-replicate, false, leb,
  leb→le, arith, if◌then◌else◌,
}
use srcrd.Xbufio.Reader.{Reader, IoRead, min_read_buffer_size, new_reader_size, read}
use srcrd.Xbufio.Reader.Gave.{IsDocumented, IsValid, pending}
use srcrd.Xbufio.Reader.Read.{read-Gave, reads, reads_in_order, reads_new}

-- What `NewReaderSize` gives on a Reader: that one, or a new one on it.
pub data Made (S T : Type 0) : Type 0 where
  reused : Reader S → Made S T
  made : Reader T → Made S T

-- `NewReaderSize`, on a Reader that is `r` as an io.Reader.
pub new_on_reader : {S T : Type 0} → Reader S → T → ℕ → Made S T
new_on_reader b r size = if leb size (length b.buf) then reused b else made (new_reader_size r size)

module _ {S : Type 0} {io : IoRead S} {source : S → List ℕ} (doc : IsDocumented io source) where
  -- A valid Reader as an io.Reader: its method `Read`.
  abbrev pub Valid : Type 0
  Valid = (b : Reader S) × IsValid b

  pub nested : IoRead Valid
  nested (b, v) m = ((read io m b).0, ((read io m b).1, (read-Gave doc m b v).valid))

  nested-IsDocumented : IsDocumented nested (λ s. pending source s.0)
  unfolding nested
  nested-IsDocumented = record {
    bounded = λ s m. (read-Gave doc m s.0 s.1).few;
    given = λ s m. (read-Gave doc m s.0 s.1).next;
  }

  -- What a client gets from the Reader that NewReaderSize gave, and what is still pending.
  pub reads_made : List ℕ → Made S Valid → List ℕ × List ℕ
  reads_made ms (reused b) = let (bs, b') = reads io ms b in (bs, pending source b')
  reads_made ms (made b) =
      let (bs, b') = reads nested ms b in (bs, pending (λ s. pending source s.0) b')

  -- The Reader itself, with a buffer that is large enough; or one on it with a larger buffer, of at least
  -- sixteen bytes, that is large enough where the first one's was not.
  abbrev pub Suits : Valid → ℕ → Made S Valid → Type 0
  Suits b size (reused b') = (b' ≡ b.0) × (size ≤ length b'.buf)
  Suits b size (made b') =
      (b'.rd ≡ b)
      × (length b.0.buf < size)
      × (size ≤ length b'.buf)
      × (min_read_buffer_size ≤ length b'.buf)

  made-Suits :
      (b : Valid) (size : ℕ)
      → leb size (length b.0.buf) ≡ false
      → Suits b size (made (new_reader_size b size))
  unfolding new_reader_size
  made-Suits b size e = (
    refl,
    ground (arith, e),
    ground
        (arith, length-replicate {A = ℕ} min_read_buffer_size 0, length-replicate {A = ℕ} size 0),
    ground
        (arith, length-replicate {A = ℕ} min_read_buffer_size 0, length-replicate {A = ℕ} size 0),
  )

  -- NewReaderSize on a valid Reader over a reader that does as documented, for any size: it gives that
  -- Reader if its buffer has the size, and else, only then, a new one on it whose buffer has the size and
  -- sixteen bytes at least. A client that reads from it in pieces of any sizes gets the bytes that were
  -- pending in the Reader in order, those in its buffer first, and the others are still pending.
  pub new_on_reader-pending :
      (b : Reader S) (v : IsValid b) (size : ℕ) (ms : List ℕ)
      → let (bs, rest) = reads_made ms (new_on_reader b (b, v) size) in
        Suits (b, v) size (new_on_reader b (b, v) size) × (pending source b ≡ bs ++ rest)
  unfolding new_on_reader reads_made
  new_on_reader-pending b v size ms = elim (Bool-cases (leb size (length b.buf))) [
    | inl e ↦ rw e ((refl, leb→le size (length b.buf) e), reads_in_order doc ms b v)
    | inr e ↦ rw e (made-Suits (b, v) size e, reads_new nested-IsDocumented (b, v) size ms)
  ]
