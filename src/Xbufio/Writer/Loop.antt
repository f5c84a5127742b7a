-- ===== src/Xbufio/Writer/Loop.antt =====
-- The loop of `Write` of xbufio/bufio_writer.go over a writer that does as io.Writer documents.
use srcrd.Prelude.{
  ℕ, suc, ◌+◌, ◌≤◌, ◌≡◌, ◌≢◌, refl, sym, ap, ap₂, ◌∙◌, Option, none, some, true, false, ◌&&◌, List,
  [], ◌++◌, append_assoc, append-nil, length, take, drop, length-drop, arith, inl, inr, ltb, ◌==◌,
  Bool-cases,
}
use srcrd.Xbufio.Writer.{
  Writer, IoWrite, copied, copy_at, available, is_ok, flush, write_round, write_loop,
}
use srcrd.Xbufio.Writer.Buffer.{drop_all, take-add, drop-drop, length-copy_at, take-copy_at}
use srcrd.Xbufio.Writer.Flush.{IsDocumented, IsValid, held, stream, flush-Flushed}

-- What it is to take the first `k` bytes of `p`, into the data stream or into the buffer.
pub record Took {S : Type 0} (sink : S → List ℕ) (b : Writer S) (p : List ℕ) (k : ℕ) (b' : Writer S)
    : Type 0 where
  pub valid : IsValid b'
  pub few : k ≤ length p
  pub grown : stream sink b' ≡ stream sink b ++ take k p
  pub size : length b'.buf ≡ length b.buf

module _ {S : Type 0} where
  -- `copy` of the front of `p` behind what the buffer holds.
  unfoldable pub filled : Writer S → List ℕ → Writer S
  filled b p = record b { buf = copy_at b.buf b.n p; n = b.n + copied b.buf b.n p }

  no_held : (b : Writer S) → b.n ≡ 0 → held b ≡ []
  no_held b z = ap (λ k. take k b.buf) {x = b.n} {y = 0} z

module _ {S : Type 0} {sink : S → List ℕ} where
  pub Took-trans :
      {b b' b'' : Writer S} {p : List ℕ} {k k' : ℕ}
      → Took sink b p k b'
      → Took sink b' (drop k p) k' b''
      → Took sink b p (k + k') b''
  Took-trans {b = b} {p = p} {k = k} {k' = k'} t u = record {
    valid = u.valid;
    few = omega (arith, t.few, u.few, length-drop k p);
    grown =
        u.grown
        ∙ rw (t.grown) (
            append_assoc (stream sink b) (take k p) (take k' (drop k p))
            ∙ ap (λ q. stream sink b ++ q) (take-add k k' (k + k') p refl));
    size = u.size ∙ t.size;
  }

  pub filled-Took :
      (b : Writer S) (p : List ℕ) → IsValid b → Took sink b p (copied b.buf b.n p) (filled b p)
  unfolding filled
  filled-Took b p v = record {
    valid = record {
      inside = omega (arith, v.inside, length-copy_at b.buf b.n p v.inside);
      room = omega (arith, v.room, length-copy_at b.buf b.n p v.inside);
    };
    few = omega arith;
    grown =
        ap (λ q. sink b.wr ++ q) (take-copy_at b.buf b.n p v.inside)
        ∙ sym (append_assoc (sink b.wr) (held b) (take (copied b.buf b.n p) p));
    size = length-copy_at b.buf b.n p v.inside;
  }

-- After a round without an error the buffer is empty; `p` is too if the buffer was empty before.
record Round {S : Type 0} (sink : S → List ℕ) (p : List ℕ) (b : Writer S) (out : ℕ × Writer S)
    : Type 0 where
  took : Took sink b p out.0 out.1
  drained : out.1.err ≡ none → out.1.n ≡ 0
  direct : b.n ≡ 0 → out.1.err ≡ none → out.0 ≡ length p

-- The loop has stopped: an error, or the rest of `p` fits into the buffer.
pub record Looped {S : Type 0} (sink : S → List ℕ) (p : List ℕ) (nn : ℕ) (b : Writer S)
    (out : Option (ℕ × List ℕ × Writer S)) : Type 0 where
  pub k : ℕ
  pub b' : Writer S
  pub returns : out ≡ some (nn + k, drop k p, b')
  pub took : Took sink b p k b'
  pub fits : b'.err ≡ none → length (drop k p) ≤ available b'

module _ {S : Type 0} {io : IoWrite S} {sink : S → List ℕ} (doc : IsDocumented io sink) where
  round_direct :
      (p : List ℕ) (b : Writer S)
      → b.n ≡ 0
      → let ((n, err), s) = io b.wr p in write_round io p b ≡ (n, record b { err = err; wr = s })
  unfolding write_round
  round_direct p b z = ground arith

  round_fill :
      (p : List ℕ) (b : Writer S)
      → b.n ≢ 0
      → write_round io p b ≡ (copied b.buf b.n p, (flush io (filled b p)).1)
  unfolding write_round filled
  round_fill p b z = ground arith

  write_round-Round : (p : List ℕ) (b : Writer S) → IsValid b → Round sink p b (write_round io p b)
  unfolding filled
  write_round-Round p b v = elim (Bool-cases (b.n == 0)) [
    | inl z ↦
        let z' : b.n ≡ 0 = ground arith in
        rw (round_direct p b z') (record {
          took = record {
            valid = record { inside = v.inside; room = v.room };
            few = doc.bounded b.wr p;
            grown = rw (no_held b z') (
                append-nil (sink (io b.wr p).1)
                ∙ doc.sunk b.wr p
                ∙ ap (λ q. q ++ take (io b.wr p).0.0 p) (sym (append-nil (sink b.wr))));
            size = refl;
          };
          drained = λ e. ground arith;
          direct = λ e f. doc.complete b.wr p f;
        })
    | inr z ↦
        let t = filled-Took {sink = sink} b p v in
        let f = flush-Flushed doc (filled b p) t.valid in
        rw (round_fill p b (ground arith)) (record {
          took = record {
            valid = f.valid;
            few = t.few;
            grown = f.same ∙ t.grown;
            size = f.size ∙ t.size;
          };
          drained = λ e. (f.drained e).0;
          direct = λ e. absurd (ground arith);
        })
  ]

  pub loop_stop :
      (fuel : ℕ) (p : List ℕ) (nn : ℕ) (b : Writer S)
      → ltb (available b) (length p) && is_ok b.err ≡ false
      → write_loop io (suc fuel) p nn b ≡ some (nn, p, b)
  unfolding write_loop
  loop_stop fuel p nn b h = ground arith

  loop_turn :
      (fuel : ℕ) (p : List ℕ) (nn : ℕ) (b : Writer S)
      → ltb (available b) (length p) && is_ok b.err ≡ true
      → let (n, b') = write_round io p b in
        write_loop io (suc fuel) p nn b ≡ write_loop io fuel (drop n p) (nn + n) b'
  unfolding write_loop
  loop_turn fuel p nn b h = ground arith

  stop-Looped :
      (fuel : ℕ) (p : List ℕ) (nn : ℕ) (b : Writer S)
      → IsValid b
      → (b.err ≡ none → length p ≤ available b)
      → Looped sink p nn b (write_loop io (suc fuel) p nn b)
  stop-Looped fuel p nn b v h = record {
    k = 0;
    b' = b;
    returns =
        loop_stop fuel p nn b (ground (arith, h))
        ∙ ap (λ k. some (k, p, b)) {x = nn} {y = nn + 0} (omega arith);
    took = record {
      valid = v;
      few = omega arith;
      grown = sym (append-nil (stream sink b));
      size = refl;
    };
    fits = h;
  }

  turn-Looped :
      (fuel : ℕ) (p : List ℕ) (nn : ℕ) (b : Writer S)
      → IsValid b
      → (b.err ≡ none
          → (n : ℕ) (b' : Writer S) → Round sink p b (n, b')
          → Looped sink (drop n p) (nn + n) b' (write_loop io fuel (drop n p) (nn + n) b'))
      → Looped sink p nn b (write_loop io (suc fuel) p nn b)
  turn-Looped fuel p nn b v next = elim (Bool-cases (ltb (available b) (length p) && is_ok b.err)) [
    | inr h ↦ stop-Looped fuel p nn b v (λ e. ground arith)
    | inl h ↦
        let r = write_round-Round p b v in
        let n = (write_round io p b).0 in
        let l = next (ground arith) n (write_round io p b).1 r in
        record {
          k = n + l.k;
          b' = l.b';
          returns =
              loop_turn fuel p nn b h
              ∙ l.returns
              ∙ ap₂ (λ a q. some (a, q, l.b')) {x = nn + n + l.k} {y = nn + (n + l.k)} (omega arith)
                  (drop-drop n l.k (n + l.k) p refl);
          took = Took-trans r.took l.took;
          fits = λ e. rw (sym (drop-drop n l.k (n + l.k) p refl)) (l.fits e);
        }
  ]

  -- The loop ends within two rounds.
  pub loop-Looped :
      (p : List ℕ) (b : Writer S) → IsValid b → Looped sink p 0 b (write_loop io 3 p 0 b)
  loop-Looped p b v = turn-Looped 2 p 0 b v (λ e0 n b1 r.
      turn-Looped 1 (drop n p) (0 + n) b1 r.took.valid (λ e1 n' b2 r'.
        stop-Looped 0 (drop n' (drop n p)) (0 + n + n') b2 r'.took.valid (λ e.
          omega (
            arith,
            ap length (drop_all n' (drop n p) (omega (arith, r'.direct (r.drained e1) e))),
          ))))
