-- ===== src/Xfmt/Exact.antt =====
-- What the writer of xfmt/print.go is given.
use srcrd.Prelude.{
  ℕ, ◌*◌, ◌^◌, ◌+◌, ◌≤◌, ◌≡◌, refl, sym, ap, inl, inr, List, [], ◌∷◌, ◌++◌, arith, Bool-cases, ◌==◌,
  ltb,
}
use srcrd.Threads.{assign, tally, tally-assign, tally-const}
use srcrd.Xbufio.Writer.{IoWrite}
use srcrd.Xfmt.{
  Pp, new_pp, free, Pc, outside, got, printed, wrote, System, do_print, Step, get_pooled, get_new,
  print, write, put, Reach, start, after,
}

-- A printer in the pool: its buffer is empty, and not too large to keep.
pub record IsClean (p : Pp) : Type 0 where
  pub empty : p.buf ≡ []
  pub small : p.cap ≤ 64 * 2 ^ 10

abbrev pub AllClean : List Pp → Type 0
AllClean [] = Unit
AllClean (p ∷ ps) = IsClean p × AllClean ps

AllClean-split :
    (ps qs : List Pp) (p : Pp) → AllClean (ps ++ (p ∷ qs)) → IsClean p × AllClean (ps ++ qs)
AllClean-split [] qs p (c, a) = (c, a)
AllClean-split (p' ∷ ps) qs p (c, a) = let (d, b) = AllClean-split ps qs p a in (d, (c, b))

-- A printer holds nothing before `doPrint`, and the argument after it.
abbrev Fits : Pc → Type 0
Fits outside = Unit
Fits (got p a) = p.buf ≡ []
Fits (printed p a) = p.buf ≡ a
Fits (wrote p) = Unit

-- The writer after one write for each argument.
abbrev pub deliver : {S : Type 0} → IoWrite S → S → List (List ℕ) → S
deliver io s [] = s
deliver io s (a ∷ more) = deliver io (io s a).1 more

deliver-append :
    {S : Type 0} (io : IoWrite S) (s : S) (args : List (List ℕ)) (a : List ℕ)
    → deliver io s (args ++ (a ∷ [])) ≡ (io (deliver io s args) a).1
deliver-append io s [] a = refl
deliver-append io s (b ∷ more) a = deliver-append io (io s b).1 more a

-- A number for each argument, added up.
abbrev pub total : (List ℕ → ℕ) → List (List ℕ) → ℕ
total f [] = 0
total f (a ∷ more) = f a + total f more

total-append :
    (f : List ℕ → ℕ) (args : List (List ℕ)) (a : List ℕ)
    → total f (args ++ (a ∷ [])) ≡ total f args + f a
total-append f [] a = omega arith
total-append f (b ∷ more) a = omega (arith, total-append f more a)

-- That of a call that is before its write.
abbrev pub before : (List ℕ → ℕ) → Pc → ℕ
before f (got p a) = f a
before f (printed p a) = f a
before f _ = 0

record Holds {S : Type 0} (io : IoWrite S) (n : ℕ) (out : S) (s : System S) : Type 0 where
  clean : AllClean s.pool
  fits : (i : ℕ) → Fits (s.pc i)
  delivered : s.out ≡ deliver io out s.sent
  once : (f : List ℕ → ℕ) → total f s.called ≡ total f s.sent + tally (before f) n s.pc

assign-Fits :
    (pc : ℕ → Pc) (i : ℕ) (p : Pc)
    → ((j : ℕ) → Fits (pc j))
    → Fits p
    → (j : ℕ) → Fits (assign pc i p j)
assign-Fits pc i p h f j = elim (Bool-cases (i == j)) [ inl e ↦ rw e f | inr e ↦ rw e (h j) ]

free-AllClean : (p : Pp) (pool : List Pp) → AllClean pool → AllClean (free p pool)
free-AllClean p pool c = elim (Bool-cases (ltb (64 * 2 ^ 10) p.cap)) [
  | inl e ↦ rw e c
  | inr e ↦ rw e (record { empty = refl; small = ground arith }, c)
]

module _ {S : Type 0} (io : IoWrite S) (grow : ℕ → ℕ → ℕ) (n : ℕ) (out : S) where
  Step-Holds : {s t : System S} → Holds io n out s → Step io grow n s t → Holds io n out t
  Step-Holds {s} h (get_pooled i a ps qs p lt e g) =
      let (c, rest) = AllClean-split ps qs p (rw g at h.clean) in
      record {
        clean = rest;
        fits = assign-Fits s.pc i (got p a) h.fits c.empty;
        delivered = h.delivered;
        once = λ f. omega (
          arith,
          h.once f,
          total-append f s.called a,
          tally-assign (before f) n i s.pc (got p a) lt,
          ap (before f) e,
        );
      }
  Step-Holds {s} h (get_new i a lt e) = record {
    clean = h.clean;
    fits = assign-Fits s.pc i (got new_pp a) h.fits refl;
    delivered = h.delivered;
    once = λ f. omega (
      arith,
      h.once f,
      total-append f s.called a,
      tally-assign (before f) n i s.pc (got new_pp a) lt,
      ap (before f) e,
    );
  }
  Step-Holds {s} h (print i p a lt e) = record {
    clean = h.clean;
    fits =
        assign-Fits s.pc i (printed (do_print grow p a) a) h.fits
          (ap (λ b. b ++ a) (rw e at (h.fits i)));
    delivered = h.delivered;
    once = λ f. omega (
      arith,
      h.once f,
      tally-assign (before f) n i s.pc (printed (do_print grow p a) a) lt,
      ap (before f) e,
    );
  }
  Step-Holds {s} h (write i p a lt e) = record {
    clean = h.clean;
    fits = assign-Fits s.pc i (wrote p) h.fits tt;
    delivered = rw (rw e at (h.fits i), h.delivered) (sym (deliver-append io out s.sent a));
    once = λ f. omega (
      arith,
      h.once f,
      total-append f s.sent a,
      tally-assign (before f) n i s.pc (wrote p) lt,
      ap (before f) e,
    );
  }
  Step-Holds {s} h (put i p lt e) = record {
    clean = free-AllClean p s.pool h.clean;
    fits = assign-Fits s.pc i outside h.fits tt;
    delivered = h.delivered;
    once =
        λ f. omega (arith, h.once f, tally-assign (before f) n i s.pc outside lt, ap (before f) e);
  }

  Reach-Holds : {s : System S} → Reach io grow n out s → Holds io n out s
  Reach-Holds start = record {
    clean = tt;
    fits = λ i. tt;
    delivered = refl;
    once = λ f. omega (arith, tally-const (before f) n outside refl);
  }
  Reach-Holds (after r st) = Step-Holds (Reach-Holds r) st

  -- In a reachable state, the writer has had the arguments of some list, one write for each and nothing
  -- that another call left in the printer. Each call so far has its argument in that list once, or is still
  -- before its write, and the list has nothing else: whatever number is given to each argument, the calls
  -- add up to the writes and the calls that are before theirs. The printers in the pool have empty
  -- buffers of 64 KB at most.
  pub Reach-delivered :
      {s : System S}
      → Reach io grow n out s
      → (s.out ≡ deliver io out s.sent)
        × ((f : List ℕ → ℕ) → total f s.called ≡ total f s.sent + tally (before f) n s.pc)
        × AllClean s.pool
  Reach-delivered r = let h = Reach-Holds r in (h.delivered, h.once, h.clean)
