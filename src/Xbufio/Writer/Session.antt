-- ===== src/Xbufio/Writer/Session.antt =====
-- A client of xbufio/bufio_writer.go that writes pieces, stops at an error, and flushes at the end.
use srcrd.Prelude.{
  ℕ, ◌≡◌, refl, sym, ap, ◌∙◌, Option, none, some, Option-cases, List, [], ◌∷◌, ◌++◌, append_assoc,
  append-nil, length-replicate, arith, inl, inr,
}
use srcrd.Xbufio.Writer.{Error, Writer, IoWrite, new_writer_size, default_buf_size, flush, write}
use srcrd.Xbufio.Writer.Buffer.{take_all}
use srcrd.Xbufio.Writer.Flush.{IsDocumented, IsValid, stream, flush-Flushed}
use srcrd.Xbufio.Writer.Write.{write-Wrote}

-- The pieces one behind the other.
pub join : List (List ℕ) → List ℕ
join [] = []
join (p ∷ ps) = p ++ join ps

-- The answer of `Write`, and what is done after it without an error.
pub and_then :
    {S : Type 0}
    → Option ((ℕ × Option Error) × Writer S)
    → (Writer S → Option (Option Error × Writer S))
    → Option (Option Error × Writer S)
and_then none f = none
and_then (some ((k, some e), b)) f = some (some e, b)
and_then (some ((k, none), b)) f = f b

pub write_all :
    {S : Type 0} → IoWrite S → List (List ℕ) → Writer S → Option (Option Error × Writer S)
write_all io [] b = some (flush io b)
write_all io (p ∷ ps) b = and_then (write io p b) (write_all io ps)

-- The client returns, and without an error all pieces are in the data stream.
pub record Sent {S : Type 0} (sink : S → List ℕ) (before : List ℕ) (ps : List (List ℕ))
    (out : Option (Option Error × Writer S)) : Type 0 where
  pub e : Option Error
  pub b' : Writer S
  pub returns : out ≡ some (e, b')
  pub sent : e ≡ none → sink b'.wr ≡ before ++ join ps

and_then_failed :
    {S : Type 0} (k : ℕ) (e : Option Error) (x : Error) (b : Writer S)
    (f : Writer S → Option (Option Error × Writer S))
    → e ≡ some x
    → and_then (some ((k, e), b)) f ≡ some (some x, b)
unfolding and_then
and_then_failed k e x b f h = rw h refl

and_then_ok :
    {S : Type 0} (k : ℕ) (e : Option Error) (b : Writer S)
    (f : Writer S → Option (Option Error × Writer S))
    → e ≡ none
    → and_then (some ((k, e), b)) f ≡ f b
unfolding and_then
and_then_ok k e b f h = rw h refl

module _ {S : Type 0} {io : IoWrite S} {sink : S → List ℕ} (doc : IsDocumented io sink) where
  pub write_all-Sent :
      (ps : List (List ℕ)) (b : Writer S)
      → IsValid b
      → Sent sink (stream sink b) ps (write_all io ps b)
  unfolding write_all join
  write_all-Sent [] b v =
      let f = flush-Flushed doc b v in
      record {
        e = (flush io b).0;
        b' = (flush io b).1;
        returns = refl;
        sent = λ q. (f.drained (sym f.sticky ∙ q)).1 ∙ sym (append-nil (stream sink b));
      }
  write_all-Sent (p ∷ ps) b v =
      let w = write-Wrote doc p b v in
      let here = ap (λ o. and_then o (write_all io ps)) w.returns in
      elim (Option-cases w.b'.err) [
        | inr (x, h) ↦ record {
          e = some x;
          b' = w.b';
          returns = here ∙ and_then_failed w.k w.b'.err x w.b' (write_all io ps) h;
          sent = λ q. absurd cc;
        }
        | inl h ↦
            let rest = write_all-Sent ps w.b' w.took.valid in
            record {
              e = rest.e;
              b' = rest.b';
              returns = here ∙ and_then_ok w.k w.b'.err w.b' (write_all io ps) h ∙ rest.returns;
              sent = λ q.
                  rest.sent q
                  ∙ rw (w.took.grown, take_all w.k p (ground (arith, w.all h)))
                      (append_assoc (stream sink b) p (join ps));
            }
      ]

  new_writer-IsValid : (s : S) (size : ℕ) → IsValid (new_writer_size s size)
  unfolding new_writer_size
  new_writer-IsValid s size = record {
    inside = omega arith;
    room =
        ground
          (arith, length-replicate {A = ℕ} default_buf_size 0, length-replicate {A = ℕ} size 0);
  }

  -- Over a writer that does as documented, a client that writes pieces through a new buffer of any
  -- size, stops at an error and flushes at the end, comes to its end; if there was no error, the data
  -- stream has grown by all pieces in order.
  pub write_all_new :
      (s : S) (size : ℕ) (ps : List (List ℕ))
      → Sent sink (sink s) ps (write_all io ps (new_writer_size s size))
  unfolding new_writer_size
  write_all_new s size ps =
      let w = write_all-Sent ps (new_writer_size s size) (new_writer-IsValid s size) in
      record {
        e = w.e;
        b' = w.b';
        returns = w.returns;
        sent = λ q. w.sent q ∙ ap (λ l. l ++ join ps) (append-nil (sink s));
      }
