-- ===== src/Xbufio/Writer/Tests.antt =====
-- Runs of xbufio/bufio_writer.go over a writer with limited room, and each theorem at one of them.
use srcrd.Prelude.{
  ℕ, ◌-◌, ◌≡◌, refl, none, some, List, [], ◌∷◌, ◌++◌, length, take, min, arith, ltb, if◌then◌else◌,
}
use srcrd.Xbufio.Writer.{
  other, Writer, IoWrite, copy_at, new_writer_size, flushed, flush, write_round, write_loop,
  write_rest, write,
}
use srcrd.Xbufio.Writer.Flush.{IsDocumented, IsValid}
use srcrd.Xbufio.Writer.Write.{Wrote, write-Wrote}
use srcrd.Xbufio.Writer.Nested.{Suits, Piped, write_made, new_on_writer, new_on_writer-Piped}
use srcrd.Xbufio.Writer.Session.{Sent, write_all, write_all_new}

-- The room left, and what was written.
abbrev Limited : Type 0
Limited = ℕ × List ℕ

abbrev limited : IoWrite Limited
limited (room, out) p =
    let k = min room (length p) in
    ((k, if ltb k (length p) then some (other 1) else none), (room - k, out ++ take k p))

limited-IsDocumented : IsDocumented limited (λ s. s.1)
limited-IsDocumented = record {
  bounded = λ s p. omega arith;
  sunk = λ s p. refl;
  complete = λ s p e. ground arith;
}

-- Four bytes of buffer, with two in use.
abbrev half : Writer Limited
half = record { err = none; buf = 1 ∷ 2 ∷ 0 ∷ 0 ∷ []; n = 2; wr = (8, []) }

half-IsValid : IsValid half
half-IsValid = record { inside = omega arith; room = omega arith }

-- Seven more bytes: two go into the buffer, which is flushed, and five go past it, four with success.
write_past :
    write limited (3 ∷ 4 ∷ 5 ∷ 6 ∷ 7 ∷ 8 ∷ 9 ∷ []) half
    ≡ some (
      (6, some (other 1)),
      record {
        err = some (other 1);
        buf = 1 ∷ 2 ∷ 3 ∷ 4 ∷ [];
        n = 0;
        wr = (0, 1 ∷ 2 ∷ 3 ∷ 4 ∷ 5 ∷ 6 ∷ 7 ∷ 8 ∷ []);
      },
    )
unfolding write write_loop write_round write_rest flush flushed copy_at
write_past = refl

write-Wrote_example : Wrote (λ s. s.1) half (3 ∷ 4 ∷ 5 ∷ []) (write limited (3 ∷ 4 ∷ 5 ∷ []) half)
write-Wrote_example = write-Wrote limited-IsDocumented (3 ∷ 4 ∷ 5 ∷ []) half half-IsValid

write_all_new_example :
    Sent
      (λ s. s.1)
      []
      ((1 ∷ 2 ∷ []) ∷ (3 ∷ 4 ∷ 5 ∷ []) ∷ [])
      (write_all limited ((1 ∷ 2 ∷ []) ∷ (3 ∷ 4 ∷ 5 ∷ []) ∷ []) (new_writer_size (8, []) 4))
write_all_new_example =
    write_all_new limited-IsDocumented (8, []) 4 ((1 ∷ 2 ∷ []) ∷ (3 ∷ 4 ∷ 5 ∷ []) ∷ [])

-- A Writer of eight bytes on one of four that holds two.
new_on_writer-Piped_example :
    Suits limited-IsDocumented (half, half-IsValid) 8 (new_on_writer half (half, half-IsValid) 8)
    × Piped limited-IsDocumented half ((3 ∷ 4 ∷ []) ∷ (5 ∷ []) ∷ []) (
        write_made limited-IsDocumented
          ((3 ∷ 4 ∷ []) ∷ (5 ∷ []) ∷ [])
          (new_on_writer half (half, half-IsValid) 8))
new_on_writer-Piped_example =
    new_on_writer-Piped limited-IsDocumented half half-IsValid 8 ((3 ∷ 4 ∷ []) ∷ (5 ∷ []) ∷ [])
