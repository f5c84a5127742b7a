-- ===== src/Xstrings/Builder.antt =====
-- xstrings/builder.go. A slice of bytes is the list of its bytes and its capacity; `allocations` counts
-- how often one is made. What `append` takes for a new capacity is up to the Go runtime: `growth`.
use srcrd.Prelude.{
  ℕ, ◌+◌, ◌-◌, ◌*◌, ◌^◌, Option, none, some, List, ◌++◌, length, ltb, leb, if◌then◌else◌,
}

-- `Builder`
pub record Builder : Type 0 where
  pub buf : List ℕ
  pub capacity : ℕ
  pub allocations : ℕ

-- `WriteString` and `Write`, whose count is the length of what they are given.
unfoldable pub write_string : (ℕ → ℕ → ℕ) → List ℕ → Builder → Builder
write_string growth s b =
    let size = length b.buf + length s in
    if leb size b.capacity then record b { buf = b.buf ++ s } else record {
      buf = b.buf ++ s;
      capacity = growth b.capacity size;
      allocations = b.allocations + 1;
    }

-- `grow`
unfoldable pub reserve : ℕ → Builder → Builder
reserve n b = record { buf = b.buf; capacity = 2 * b.capacity + n; allocations = b.allocations + 1 }

-- `Grow` on the bit pattern of an int; `none` is the panic on a negative one.
unfoldable pub grow : ℕ → Builder → Option Builder
unfolding reserve
grow n b =
    if leb (2 ^ 63) n
    then none
    else if ltb (b.capacity - length b.buf) n
    then some (reserve n b)
    else some b
