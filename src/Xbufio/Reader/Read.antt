-- ===== src/Xbufio/Reader/Read.antt =====
-- `Read` of xbufio/bufio_reader.go over a reader that does as io.Reader documents.
use srcrd.Prelude.{
  ℕ, ◌-◌, ◌≤◌, ◌≡◌, refl, sym, ap, ◌∙◌, Option, none, some, Option-cases, true, false, Bool-cases,
  List, [], ◌∷◌, ◌++◌, append_assoc, length, take, drop, length-append, length-drop,
  length-replicate, arith, inl, inr, ltb, leb, ◌==◌, if◌then◌else◌,
}
use srcrd.Xbufio.Writer.Buffer.{take_prefix}
use srcrd.Xbufio.Reader.{
  Reader, IoRead, min_read_buffer_size, new_reader_size, buffered, read_err, read_copy, read_direct,
  read_fill, read_empty, read,
}
use srcrd.Xbufio.Reader.Gave.{IsDocumented, IsValid, pending, Gave, read_err-Gave, read_copy-Gave}

-- The reader after a fill of its buffer.
after_fill : {S : Type 0} → List ℕ → Option ℕ → S → Reader S → Reader S
after_fill bs e s b = record b {
  buf = bs ++ drop (length bs) b.buf;
  rd = s;
  r = 0;
  w = length bs;
  err = e;
}

module _ {S : Type 0} {io : IoRead S} {source : S → List ℕ} (doc : IsDocumented io source) where
  nothing_held : (b : Reader S) → b.r ≡ b.w → pending source b ≡ source b.rd
  nothing_held b e =
      ap (λ k. take k (drop b.r b.buf) ++ source b.rd) {x = b.w - b.r} {y = 0} (omega arith)

  read_direct-Gave :
      (m : ℕ) (b : Reader S) → IsValid b → b.r ≡ b.w → Gave source m b (read_direct io m b)
  unfolding read_direct
  read_direct-Gave m b v e = record {
    valid = record { order = v.order; inside = v.inside; room = v.room };
    few = doc.bounded b.rd m;
    next =
        nothing_held b e
        ∙ doc.given b.rd m
        ∙ ap (λ q. (io b.rd m).0.0 ++ q)
            (ap (λ k. take k (drop b.r b.buf) ++ source (io b.rd m).1) {x = 0} {y = b.w - b.r}
              (omega arith));
    once = λ _. refl;
  }

  filled-IsValid :
      (bs : List ℕ) (e : Option ℕ) (s : S) (b : Reader S)
      → IsValid b
      → length bs ≤ length b.buf
      → IsValid (after_fill bs e s b)
  unfolding after_fill
  filled-IsValid bs e s b v h =
      let l = length-append bs (drop (length bs) b.buf) in
      let d = length-drop (length bs) b.buf in
      record {
        order = omega arith;
        inside = omega (arith, l, d);
        room = omega (arith, l, d, v.room);
      }

  filled-pending :
      (bs : List ℕ) (e : Option ℕ) (s : S) (b : Reader S)
      → pending source (after_fill bs e s b) ≡ bs ++ source s
  unfolding after_fill
  filled-pending bs e s b =
      ap (λ q. q ++ source s)
        (take_prefix (length bs - 0) bs (drop (length bs) b.buf) (omega arith))

  read_fill_lem :
      (m : ℕ) (b : Reader S)
      → let ((bs, e), s) = io b.rd (length b.buf) in
        read_fill io m b ≡ (
          if length bs == 0
          then read_err (after_fill bs e s b)
          else read_copy m (after_fill bs e s b))
  unfolding read_fill after_fill
  read_fill_lem m b = refl

  Gave-same :
      {m : ℕ} {b b' : Reader S} {out : (List ℕ × Option ℕ) × Reader S}
      → pending source b ≡ pending source b'
      → Gave source m b' out
      → Gave source m b out
  Gave-same e g = record { valid = g.valid; few = g.few; next = e ∙ g.next; once = g.once }

  read_fill-Gave :
      (m : ℕ) (b : Reader S) → IsValid b → b.r ≡ b.w → Gave source m b (read_fill io m b)
  read_fill-Gave m b v e =
      let bs = (io b.rd (length b.buf)).0.0 in
      let b' = after_fill bs (io b.rd (length b.buf)).0.1 (io b.rd (length b.buf)).1 b in
      let v' =
        filled-IsValid bs (io b.rd (length b.buf)).0.1 (io b.rd (length b.buf)).1 b v
          (doc.bounded b.rd (length b.buf)) in
      let same =
        nothing_held b e
        ∙ doc.given b.rd (length b.buf)
        ∙ sym (filled-pending bs (io b.rd (length b.buf)).0.1 (io b.rd (length b.buf)).1 b) in
      rw (read_fill_lem m b) (
        Gave-same same
          (elim (length bs == 0)
            as (λ t. Gave source m b' (if t then read_err b' else read_copy m b')) [
              | true ↦ read_err-Gave m b' v'
              | false ↦ read_copy-Gave m b' v'
            ]))

  empty_failed : (m : ℕ) (b : Reader S) (e : ℕ) → b.err ≡ some e → read_empty io m b ≡ read_err b
  unfolding read_empty
  empty_failed m b e h = ground arith

  empty_direct :
      (m : ℕ) (b : Reader S)
      → b.err ≡ none
      → leb (length b.buf) m ≡ true
      → read_empty io m b ≡ read_direct io m b
  unfolding read_empty
  empty_direct m b h l = ground arith

  empty_fill :
      (m : ℕ) (b : Reader S)
      → b.err ≡ none
      → leb (length b.buf) m ≡ false
      → read_empty io m b ≡ read_fill io m b
  unfolding read_empty
  empty_fill m b h l = ground arith

  read_empty-Gave :
      (m : ℕ) (b : Reader S) → IsValid b → b.r ≡ b.w → Gave source m b (read_empty io m b)
  read_empty-Gave m b v e = elim (Option-cases b.err) [
    | inr (x, h) ↦ rw (empty_failed m b x h) (read_err-Gave m b v)
    | inl h ↦ elim (Bool-cases (leb (length b.buf) m)) [
      | inl l ↦ rw (empty_direct m b h l) (read_direct-Gave m b v e)
      | inr l ↦ rw (empty_fill m b h l) (read_fill-Gave m b v e)
    ]
  ]

  read_zero :
      (m : ℕ) (b : Reader S)
      → m == 0 ≡ true
      → read io m b ≡ (if ltb 0 (buffered b) then (([], none), b) else read_err b)
  unfolding read
  read_zero m b h = rw h refl

  read_at_end :
      (m : ℕ) (b : Reader S) → m == 0 ≡ false → b.r == b.w ≡ true → read io m b ≡ read_empty io m b
  unfolding read
  read_at_end m b h e = rw (h, e) refl

  read_inside :
      (m : ℕ) (b : Reader S) → m == 0 ≡ false → b.r == b.w ≡ false → read io m b ≡ read_copy m b
  unfolding read
  read_inside m b h e = rw (h, e) refl

  -- On a valid reader over one that does as documented, `Read` gives at most as many bytes as asked
  -- for, and they are the next of those pending, in order; an error that it returns is not kept, and
  -- the reader stays valid.
  pub read-Gave : (m : ℕ) (b : Reader S) → IsValid b → Gave source m b (read io m b)
  read-Gave m b v = elim (Bool-cases (m == 0)) [
    | inl z ↦
        rw (read_zero m b z)
          (elim (ltb 0 (buffered b))
            as (λ t. Gave source m b (if t then (([], none), b) else read_err b)) [
              | true ↦ record {
                valid = v;
                few = omega arith;
                next = refl;
                once = λ h. absurd (h refl);
              }
              | false ↦ read_err-Gave m b v
            ])
    | inr z ↦ elim (Bool-cases (b.r == b.w)) [
      | inl e ↦ rw (read_at_end m b z e) (read_empty-Gave m b v (ground arith))
      | inr e ↦ rw (read_inside m b z e) (read_copy-Gave m b v)
    ]
  ]

-- The reads of a client with these sizes: all that it gets, and the reader afterwards.
pub reads : {S : Type 0} → IoRead S → List ℕ → Reader S → List ℕ × Reader S
reads io [] b = ([], b)
reads io (m ∷ ms) b =
    let ((bs, e), b') = read io m b in let (rest, b'') = reads io ms b' in (bs ++ rest, b'')

module _ {S : Type 0} {io : IoRead S} {source : S → List ℕ} (doc : IsDocumented io source) where
  pub reads_in_order :
      (ms : List ℕ) (b : Reader S)
      → IsValid b
      → pending source b ≡ (reads io ms b).0 ++ pending source (reads io ms b).1
  unfolding reads
  reads_in_order [] b v = refl
  reads_in_order (m ∷ ms) b v =
      let g = read-Gave doc m b v in
      let b' = (read io m b).1 in
      g.next
      ∙ ap (λ q. (read io m b).0.0 ++ q) (reads_in_order ms b' g.valid)
      ∙ sym (append_assoc (read io m b).0.0 (reads io ms b').0 _)

  new_reader-IsValid : (s : S) (size : ℕ) → IsValid (new_reader_size s size)
  unfolding new_reader_size
  new_reader-IsValid s size = record {
    order = omega arith;
    inside = omega arith;
    room =
        ground
          (arith, length-replicate {A = ℕ} min_read_buffer_size 0, length-replicate {A = ℕ} size 0);
  }

  -- Over a reader that does as documented, a client that reads through a new buffer of any size, in
  -- pieces of any sizes, gets the bytes of the source in order, and the others are still pending.
  pub reads_new :
      (s : S) (size : ℕ) (ms : List ℕ)
      → let (bs, b) = reads io ms (new_reader_size s size) in source s ≡ bs ++ pending source b
  unfolding new_reader_size
  reads_new s size ms = reads_in_order ms (new_reader_size s size) (new_reader-IsValid s size)
