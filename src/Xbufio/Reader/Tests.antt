-- ===== src/Xbufio/Reader/Tests.antt =====
-- Runs of xbufio/bufio_reader.go over a list of bytes, and each theorem at one of them.
use srcrd.Prelude.{
  ℕ, ◌≡◌, refl, sym, Option, none, some, List, [], ◌∷◌, ◌++◌, take, drop, min, length-take,
  take-append-drop, arith,
}
use srcrd.Xbufio.Reader.{Reader, IoRead, new_reader_size, read_copy, read_fill, read_empty, read}
use srcrd.Xbufio.Reader.Gave.{IsDocumented, IsValid, pending}
use srcrd.Xbufio.Reader.Nested.{Suits, reads_made, new_on_reader, new_on_reader-pending}
use srcrd.Xbufio.Reader.Read.{reads, reads_new}

-- A reader that gives at most three bytes at a time, and error 7 at the end.
abbrev at_end : List ℕ → Option ℕ
at_end [] = some 7
at_end (x ∷ xs) = none

abbrev by_three : IoRead (List ℕ)
by_three s m = ((take (min m 3) s, at_end s), drop (min m 3) s)

by_three-IsDocumented : IsDocumented by_three (λ s. s)
by_three-IsDocumented = record {
  bounded = λ s m. omega (arith, length-take (min m 3) s);
  given = λ s m. sym (take-append-drop (min m 3) s);
}

-- Four bytes of buffer, all read.
abbrev drained : Reader (List ℕ)
drained = record {
  buf = 9 ∷ 9 ∷ 9 ∷ 9 ∷ [];
  rd = 1 ∷ 2 ∷ 3 ∷ 4 ∷ [];
  r = 4;
  w = 4;
  err = none;
  last_byte = none;
  last_rune_size = none;
}

read_two : read by_three 2 drained ≡ (
  (1 ∷ 2 ∷ [], none),
  record drained { buf = 1 ∷ 2 ∷ 3 ∷ 9 ∷ []; rd = 4 ∷ []; r = 2; w = 3; last_byte = some 2 },
)
unfolding read read_empty read_fill read_copy
read_two = refl

reads_new_example :
    let (bs, b) = reads by_three (2 ∷ 0 ∷ 20 ∷ []) (new_reader_size (1 ∷ 2 ∷ 3 ∷ 4 ∷ []) 4) in
    1 ∷ 2 ∷ 3 ∷ 4 ∷ [] ≡ bs ++ pending (λ s. s) b
reads_new_example = reads_new by_three-IsDocumented (1 ∷ 2 ∷ 3 ∷ 4 ∷ []) 4 (2 ∷ 0 ∷ 20 ∷ [])

-- A Reader with two bytes in its buffer, and one of sixteen bytes on it.
abbrev half : Reader (List ℕ)
half = record {
  buf = 1 ∷ 2 ∷ 3 ∷ 9 ∷ [];
  rd = 4 ∷ 5 ∷ [];
  r = 1;
  w = 3;
  err = none;
  last_byte = none;
  last_rune_size = none;
}

half-IsValid : IsValid half
half-IsValid = record { order = omega arith; inside = omega arith; room = omega arith }

new_on_reader-pending_example :
    let (bs, rest) =
      reads_made by_three-IsDocumented (1 ∷ 9 ∷ []) (new_on_reader half (half, half-IsValid) 8) in
    Suits by_three-IsDocumented (half, half-IsValid) 8 (new_on_reader half (half, half-IsValid) 8)
    × (2 ∷ 3 ∷ 4 ∷ 5 ∷ [] ≡ bs ++ rest)
new_on_reader-pending_example =
    new_on_reader-pending by_three-IsDocumented half half-IsValid 8 (1 ∷ 9 ∷ [])
