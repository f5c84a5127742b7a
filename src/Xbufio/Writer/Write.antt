-- ===== src/Xbufio/Writer/Write.antt =====
-- `Write` of xbufio/bufio_writer.go over a writer that does as io.Writer documents.
use srcrd.Prelude.{
  ℕ, ◌+◌, ◌≡◌, ap, ◌∙◌, Option, none, some, List, length, drop, length-drop, arith, inl, inr,
  Option-cases,
}
use srcrd.Xbufio.Writer.{Error, Writer, IoWrite, copied, flush, write_loop, write_rest, write}
use srcrd.Xbufio.Writer.Flush.{IsDocumented, IsValid}
use srcrd.Xbufio.Writer.Loop.{Took, Took-trans, filled, filled-Took, loop_stop, loop-Looped}

-- What `Write` does: it returns, it takes the bytes that it counts, and all of them without an error.
pub record Wrote {S : Type 0} (sink : S → List ℕ) (b : Writer S) (p : List ℕ)
    (out : Option ((ℕ × Option Error) × Writer S)) : Type 0 where
  pub k : ℕ
  pub b' : Writer S
  pub returns : out ≡ some ((k, b'.err), b')
  pub took : Took sink b p k b'
  pub all : b'.err ≡ none → k ≡ length p

module _ {S : Type 0} {io : IoWrite S} {sink : S → List ℕ} (doc : IsDocumented io sink) where
  rest_failed :
      (nn : ℕ) (p : List ℕ) (b : Writer S) (e : Error)
      → b.err ≡ some e
      → write_rest nn p b ≡ ((nn, b.err), b)
  unfolding write_rest
  rest_failed nn p b e h = ground arith

  rest_copied :
      (nn : ℕ) (p : List ℕ) (b : Writer S)
      → b.err ≡ none
      → write_rest nn p b ≡ ((nn + copied b.buf b.n p, b.err), filled b p)
  unfolding write_rest filled
  rest_copied nn p b h = ground arith

  write_looped :
      (p q : List ℕ) (b b' : Writer S) (nn : ℕ)
      → write_loop io 3 p 0 b ≡ some (nn, q, b')
      → write io p b ≡ some (write_rest nn q b')
  unfolding write
  write_looped p q b b' nn h = ground arith

  -- On a valid writer over one that does as documented, `Write` returns: the bytes in the data stream
  -- and in the buffer are those before and the bytes that it counts, in order, which are all of `p` if
  -- there is no error; the writer stays valid.
  pub write-Wrote : (p : List ℕ) (b : Writer S) → IsValid b → Wrote sink b p (write io p b)
  unfolding filled
  write-Wrote p b v =
      let l = loop-Looped doc p b v in
      let w =
        write_looped p (drop l.k p) b l.b' l.k (
          l.returns ∙ ap (λ k. some (k, drop l.k p, l.b')) {x = 0 + l.k} {y = l.k} (omega arith)) in
      elim (Option-cases l.b'.err) [
        | inr (e, h) ↦ record {
          k = l.k;
          b' = l.b';
          returns = w ∙ ap some (rest_failed l.k (drop l.k p) l.b' e h);
          took = l.took;
          all = λ q. absurd cc;
        }
        | inl h ↦
            let m = copied l.b'.buf l.b'.n (drop l.k p) in
            record {
              k = l.k + m;
              b' = filled l.b' (drop l.k p);
              returns = w ∙ ap some (rest_copied l.k (drop l.k p) l.b' h);
              took = Took-trans l.took (filled-Took l.b' (drop l.k p) l.took.valid);
              all = λ q. omega (arith, l.fits h, l.took.few, length-drop l.k p);
            }
      ]

  -- An error is sticky: once the writer has one, `Write` and `Flush` return it, and change nothing.
  pub write_failed :
      (p : List ℕ) (b : Writer S) (e : Error)
      → b.err ≡ some e
      → (write io p b ≡ some ((0, some e), b)) × (flush io b ≡ (some e, b))
  unfolding flush
  write_failed p b e h = (
    write_looped p p b b 0 (loop_stop doc 2 p 0 b (ground arith))
        ∙ ap some (rest_failed 0 p b e h ∙ ap (λ q. ((0, q), b)) h),
    ground arith,
  )
