-- ===== src/Xbufio/Reader/Gave.antt =====
-- What a read of xbufio/bufio_reader.go gives, and the parts of Read that do not ask the reader below.
use srcrd.Prelude.{
  ℕ, ◌+◌, ◌-◌, ◌≤◌, ◌<◌, ◌≡◌, ◌≢◌, refl, sym, ap, ◌∙◌, Option, none, List, ◌++◌, append_assoc,
  length, take, drop, min, length-take, arith,
}
use srcrd.Xbufio.Writer.Buffer.{take-add, drop-drop}
use srcrd.Xbufio.Reader.{Reader, IoRead, buffered, read_err, read_copy}

-- "Read reads up to len(p) bytes into p. It returns the number of bytes read (0 <= n <= len(p)) and
-- any error encountered." `source` is what the reader has still to give.
pub record IsDocumented {S : Type 0} (io : IoRead S) (source : S → List ℕ) : Type 0 where
  pub bounded : (s : S) (m : ℕ) → length (io s m).0.0 ≤ m
  pub given : (s : S) (m : ℕ) → source s ≡ (io s m).0.0 ++ source (io s m).1

module _ {S : Type 0} where
  pub record IsValid (b : Reader S) : Type 0 where
    pub order : b.r ≤ b.w
    pub inside : b.w ≤ length b.buf
    pub room : 0 < length b.buf

  -- The bytes that a client has still to see: those in the buffer, then those to come.
  abbrev pub pending : (S → List ℕ) → Reader S → List ℕ
  pending source b = take (b.w - b.r) (drop b.r b.buf) ++ source b.rd

-- What a read of at most `m` bytes gives: the next bytes, and an error at most once.
pub record Gave {S : Type 0} (source : S → List ℕ) (m : ℕ) (b : Reader S)
    (out : (List ℕ × Option ℕ) × Reader S) : Type 0 where
  pub valid : IsValid out.1
  pub few : length out.0.0 ≤ m
  pub next : pending source b ≡ out.0.0 ++ pending source out.1
  pub once : out.0.1 ≢ none → out.1.err ≡ none

pub split_take :
    (k l n : ℕ) (xs ys : List ℕ) (r r' : ℕ)
    → r' ≡ r + k
    → n ≡ k + l
    → take n (drop r xs) ++ ys ≡ take k (drop r xs) ++ (take l (drop r' xs) ++ ys)
split_take k l n xs ys r r' e f =
    ap (λ q. q ++ ys)
      (sym (take-add k l n (drop r xs) f)
        ∙ ap (λ q. take k (drop r xs) ++ take l q) (drop-drop r k r' xs e))
    ∙ append_assoc (take k (drop r xs)) (take l (drop r' xs)) ys

module _ {S : Type 0} {source : S → List ℕ} where
  pub read_err-Gave : (m : ℕ) (b : Reader S) → IsValid b → Gave source m b (read_err b)
  unfolding read_err
  read_err-Gave m b v = record {
    valid = record { order = v.order; inside = v.inside; room = v.room };
    few = omega arith;
    next = refl;
    once = λ _. refl;
  }

  pub read_copy-Gave : (m : ℕ) (b : Reader S) → IsValid b → Gave source m b (read_copy m b)
  unfolding read_copy
  read_copy-Gave m b v = record {
    valid = record {
      order = omega (arith, v.order);
      inside = omega (arith, v.order, v.inside);
      room = v.room;
    };
    few = omega (arith, length-take (min m (buffered b)) (drop b.r b.buf));
    next =
        split_take (min m (buffered b)) (b.w - (b.r + min m (buffered b))) (b.w - b.r) b.buf
          (source b.rd) b.r (b.r + min m (buffered b)) refl (omega (arith, v.order));
    once = λ h. absurd (h refl);
  }
