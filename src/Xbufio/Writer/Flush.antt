-- ===== src/Xbufio/Writer/Flush.antt =====
-- `Flush` of xbufio/bufio_writer.go over a writer that does as io.Writer documents.
use native.Mathlib.Decide.{dec_lt}
use srcrd.Prelude.{
  ◌&&◌, if◌then◌else◌, ℕ, zero, suc, ◌-◌, ◌≤◌, ◌<◌, ◌≡◌, ◌≢◌, refl, sym, ap, ◌∙◌, Option, none,
  some, List, ◌++◌, append_assoc, append-nil, length, take, drop, length-take, take-append-drop,
  arith, inl, inr, ltb, ◌==◌,
}
use srcrd.Prelude.{Option-cases, Bool-cases}
use srcrd.Xbufio.Writer.{Error, Writer, IoWrite, shift, or_short, flushed, flush}
use srcrd.Xbufio.Writer.Buffer.{take_all, drop_all, length-shift, take-shift}

-- "Write writes len(p) bytes from p to the underlying data stream. It returns the number of bytes
-- written from p (0 <= n <= len(p)) and any error encountered that caused the write to stop early.
-- Write must return a non-nil error if it returns n < len(p)." `sink` is the data stream.
pub record IsDocumented {S : Type 0} (io : IoWrite S) (sink : S → List ℕ) : Type 0 where
  pub bounded : (s : S) (p : List ℕ) → (io s p).0.0 ≤ length p
  pub sunk : (s : S) (p : List ℕ) → sink (io s p).1 ≡ sink s ++ take (io s p).0.0 p
  pub complete : (s : S) (p : List ℕ) → (io s p).0.1 ≡ none → (io s p).0.0 ≡ length p

module _ {S : Type 0} where
  -- The buffer has room, and its used part lies in it.
  pub record IsValid (b : Writer S) : Type 0 where
    pub inside : b.n ≤ length b.buf
    pub room : 0 < length b.buf

  abbrev pub held : Writer S → List ℕ
  held b = take b.n b.buf

  -- All bytes taken so far: those in the data stream, then those in the buffer.
  abbrev pub stream : (S → List ℕ) → Writer S → List ℕ
  stream sink b = sink b.wr ++ held b

-- What a flush does to the bytes: none is lost, and without an error all are in the data stream.
pub record Flushed {S : Type 0} (sink : S → List ℕ) (b : Writer S) (out : Option Error × Writer S)
    : Type 0 where
  pub valid : IsValid out.1
  pub same : stream sink out.1 ≡ stream sink b
  pub size : length out.1.buf ≡ length b.buf
  pub sticky : out.0 ≡ out.1.err
  pub drained : out.1.err ≡ none → (out.1.n ≡ 0) × (sink out.1.wr ≡ stream sink b)

or_short-none : (n m : ℕ) (e : Option Error) → or_short n m e ≡ none → m ≤ n
or_short-none n m (some e) h = absurd cc
or_short-none n m none h = ground arith

-- The buffer after a failed write of `m` bytes that took `n`.
abbrev remains : ℕ → ℕ → List ℕ → List ℕ
remains n m buf = if ltb 0 n && ltb n m then shift n m buf else buf

length-remains : (n m : ℕ) (buf : List ℕ) → m ≤ length buf → length (remains n m buf) ≡ length buf
length-remains n m buf h = ground (arith, length-shift n m buf h)

take-remains :
    (n m : ℕ) (buf : List ℕ)
    → n ≤ m
    → m ≤ length buf
    → take (m - n) (remains n m buf) ≡ drop n (take m buf)
take-remains zero m buf h l = ap (λ k. take k buf) {x = m - 0} {y = m} (omega arith)
take-remains (suc n) m buf h l = elim (dec_lt (suc n) m) [
  | yes q ↦ ground (arith, take-shift (suc n) m buf l)
  | no q ↦ ground (
    arith,
    ap (λ k. take k buf) {x = m - suc n} {y = 0} (omega arith),
    drop_all (suc n) (take m buf) (omega (arith, length-take m buf)),
  )
]

module _ {S : Type 0} {io : IoWrite S} {sink : S → List ℕ} (doc : IsDocumented io sink) where
  flush_failed : (b : Writer S) (e : Error) → b.err ≡ some e → flush io b ≡ (some e, b)
  unfolding flush
  flush_failed b e h = ground arith

  flush_nothing : (b : Writer S) → b.err ≡ none → b.n ≡ 0 → flush io b ≡ (none, b)
  unfolding flush
  flush_nothing b h z = ground arith

  flush_write :
      (b : Writer S)
      → b.err ≡ none
      → b.n ≢ 0
      → let ((n, err), s) = io b.wr (take b.n b.buf) in
        flush io b ≡ flushed n (or_short n b.n err) s b
  unfolding flush
  flush_write b h z = ground arith

  flushed-Flushed :
      (b : Writer S) (n : ℕ) (e : Option Error) (s : S)
      → IsValid b
      → n ≤ b.n
      → sink s ≡ sink b.wr ++ take n (held b)
      → (e ≡ none → n ≡ b.n)
      → b.err ≡ none
      → Flushed sink b (flushed n e s b)
  unfolding flushed
  flushed-Flushed b n none s v h w c z = record {
    valid = record { inside = omega arith; room = v.room };
    same =
        append-nil (sink s)
        ∙ w
        ∙ ap (λ q. sink b.wr ++ q)
            (take_all n (held b) (omega (arith, c refl, length-take b.n b.buf, v.inside)));
    size = refl;
    sticky = sym z;
    drained = λ q. (
      refl,
      w
          ∙ ap (λ q. sink b.wr ++ q)
              (take_all n (held b) (omega (arith, c refl, length-take b.n b.buf, v.inside))),
    );
  }
  flushed-Flushed b n (some e) s v h w c z = record {
    valid = record {
      inside = omega (arith, v.inside, length-remains n b.n b.buf v.inside);
      room = omega (arith, v.room, length-remains n b.n b.buf v.inside);
    };
    same =
        rw (w, take-remains n b.n b.buf h v.inside)
          (append_assoc (sink b.wr) (take n (held b)) (drop n (held b))
            ∙ ap (λ q. sink b.wr ++ q) (take-append-drop n (held b)));
    size = length-remains n b.n b.buf v.inside;
    sticky = refl;
    drained = λ q. absurd cc;
  }

  -- On a valid writer over one that does as documented, `Flush` loses no byte, in the data stream or in
  -- the buffer, and the writer stays valid; if it returns no error then the buffer is empty and all
  -- bytes are in the data stream.
  pub flush-Flushed : (b : Writer S) → IsValid b → Flushed sink b (flush io b)
  flush-Flushed b v = elim (Option-cases b.err) [
    | inr (e, h) ↦
        rw (flush_failed b e h)
          (record { valid = v; same = refl; size = refl; sticky = sym h; drained = λ q. absurd cc })
    | inl h ↦ elim (Bool-cases (b.n == 0)) [
      | inl z ↦ rw (flush_nothing b h (ground arith)) (record {
        valid = v;
        same = refl;
        size = refl;
        sticky = sym h;
        drained = λ q. (
          ground arith,
          sym (
              ap (λ k. sink b.wr ++ take k b.buf) {x = b.n} {y = 0} (ground arith)
              ∙ append-nil (sink b.wr)),
        );
      })
      | inr z ↦ rw (flush_write b h (ground arith)) (
          flushed-Flushed b _ _ _ v
            (omega (arith, doc.bounded b.wr (held b), length-take b.n b.buf))
            (doc.sunk b.wr (held b))
            (λ q. omega (
              arith,
              or_short-none (io b.wr (held b)).0.0 b.n (io b.wr (held b)).0.1 q,
              doc.bounded b.wr (held b),
              length-take b.n b.buf,
            ))
            h)
    ]
  ]
