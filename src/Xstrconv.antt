-- ===== src/Xstrconv.antt =====
-- The package xstrconv: integers to decimal text and back. A text is the list of its bytes; an int64
-- is its bit pattern below 2 ^ 64, negative from 2 ^ 63 on.
pub mod Itoa
pub mod Atoi
pub mod Digits
pub mod Roundtrip
pub mod Value
mod Tests
