-- ===== src/Xfmt.antt =====
-- xfmt/print.go: `Fprint`, with any number of goroutines interleaved. The pool is Go's own sync.Pool, which
-- the model takes as documented: Get gives some object that was put and takes it out, or a new one. The
-- writer, and the capacity that an append gives a slice, come from outside.
pub mod Exact
mod Tests
use srcrd.Prelude.{
  ℕ, ◌+◌, ◌*◌, ◌^◌, ◌<◌, ◌≡◌, Bool, Option, List, [], ◌∷◌, ◌++◌, length, ltb, leb, if◌then◌else◌,
}
use srcrd.Threads.{assign}
use srcrd.Xbufio.Writer.{Error, IoWrite}

-- `pp`: the buffer, and its capacity.
pub record Pp : Type 0 where
  pub buf : List ℕ
  pub cap : ℕ

-- `ppFree.New`
abbrev pub new_pp : Pp
new_pp = record { buf = []; cap = 0 }

-- `free`: the pool afterwards.
abbrev pub free : Pp → List Pp → List Pp
free p pool = if ltb (64 * 2 ^ 10) p.cap then pool else record p { buf = [] } ∷ pool

-- Where a goroutine stands in `Fprint`, with its printer and its argument.
pub data Pc : Type 0 where
  outside : Pc
  got : (p : Pp) (a : List ℕ) → Pc  -- after newPrinter
  printed : (p : Pp) (a : List ℕ) → Pc  -- after doPrint
  wrote : (p : Pp) → Pc  -- before free

-- `ppFree`, the writer, the goroutines, and for the theorems the arguments in the order of the calls, and
-- in the order of the writes.
pub record System (S : Type 0) : Type 0 where
  pub pool : List Pp
  pub out : S
  pub pc : ℕ → Pc
  pub called : List (List ℕ)
  pub sent : List (List ℕ)

-- `doPrint`
abbrev pub do_print : (ℕ → ℕ → ℕ) → Pp → List ℕ → Pp
do_print grow p a = record {
  buf = p.buf ++ a;
  cap = if leb (length (p.buf ++ a)) p.cap then p.cap else grow p.cap (length (p.buf ++ a));
}

-- `n` is above the numbers of all goroutines.
module _ {S : Type 0} (io : IoWrite S) (grow : ℕ → ℕ → ℕ) (n : ℕ) where
  -- One step of the goroutine `i`.
  pub data Step (s : System S) : System S → Type 0 where
    get_pooled :
        (i : ℕ) (a : List ℕ) (ps qs : List Pp) (p : Pp)
        → i < n
        → s.pc i ≡ outside
        → s.pool ≡ ps ++ (p ∷ qs)
        → Step s (record s {
          pool = ps ++ qs;
          pc = assign s.pc i (got p a);
          called = s.called ++ (a ∷ []);
        })
    get_new :
        (i : ℕ) (a : List ℕ)
        → i < n
        → s.pc i ≡ outside
        → Step s (record s { pc = assign s.pc i (got new_pp a); called = s.called ++ (a ∷ []) })
    print :
        (i : ℕ) (p : Pp) (a : List ℕ)
        → i < n
        → s.pc i ≡ got p a
        → Step s (record s { pc = assign s.pc i (printed (do_print grow p a) a) })
    write :
        (i : ℕ) (p : Pp) (a : List ℕ)
        → i < n
        → s.pc i ≡ printed p a
        → Step s (record s {
          out = (io s.out p.buf).1;
          pc = assign s.pc i (wrote p);
          sent = s.sent ++ (a ∷ []);
        })
    put :
        (i : ℕ) (p : Pp)
        → i < n
        → s.pc i ≡ wrote p
        → Step s (record s { pool = free p s.pool; pc = assign s.pc i outside })

  pub data Reach (out : S) : System S → Type 0 where
    start : Reach out (record { pool = []; out = out; pc = λ _. outside; called = []; sent = [] })
    after : {s t : System S} → Reach out s → Step s t → Reach out t
