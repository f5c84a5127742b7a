-- ===== src/Xsync/PoolQueue.antt =====
-- xsync/pool_queue.go: the ring that a producer uses at its head and consumers at its tail. Each
-- method runs as one goroutine runs it, so that a compare-and-swap succeeds.
pub mod Window
pub mod Inv
pub mod Push
pub mod PopTail
pub mod PopHead
pub mod Refine
pub mod Session
mod Tests
use srcrd.Prelude.{
  ℕ, ◌+◌, ◌-◌, ◌*◌, ◌/◌, ◌%◌, ◌^◌, Bool, true, false, Option, none, some, List, length, get_or, set,
  ◌==◌, if◌then◌else◌,
}

-- An `interface{}`: nil, or a value that the queue only moves.
pub data Value : Type 0 where
  nil : Value
  item : ℕ → Value

-- `eface`: a slot whose `typ` is nil, one with `dequeueNil`, and one with another value.
pub data Slot : Type 0 where
  empty sentinel : Slot
  full : ℕ → Slot

pub record PoolDequeue : Type 0 where
  pub head_tail : ℕ  -- uint64
  pub vals : List Slot

abbrev pub dequeue_limit : ℕ
dequeue_limit = 2 ^ 32 / 4

-- `>> dequeueBits` and `& mask` on a uint64, and the casts to uint32.
abbrev pub unpack_head : ℕ → ℕ
unpack_head ptrs = ptrs / 2 ^ 32 % 2 ^ 32

abbrev pub unpack_tail : ℕ → ℕ
unpack_tail ptrs = ptrs % 2 ^ 32

-- The two halves do not overlap, so that `|` adds them.
pub pack : ℕ → ℕ → ℕ
pack head tail = head * 2 ^ 32 % 2 ^ 64 + tail % 2 ^ 32

-- `i & uint32(len(d.vals)-1)`, where the length is a power of 2.
abbrev pub index : ℕ → List Slot → ℕ
index i vals = i % length vals

abbrev pub slot_at : ℕ → List Slot → Slot
slot_at i vals = get_or vals (index i vals) empty

pub box : Value → Slot
box nil = sentinel
box (item x) = full x

pub unbox : Slot → Value
unbox empty = nil
unbox sentinel = nil
unbox (full x) = item x

abbrev pub is_empty : Slot → Bool
is_empty empty = true
is_empty _ = false

-- `pushHead`
pub push_head : Value → PoolDequeue → Bool × PoolDequeue
push_head val d =
    let head = unpack_head d.head_tail in
    let tail = unpack_tail d.head_tail in
    if (tail + length d.vals) % 2 ^ 32 == head
    then (false, d)
    else if is_empty (slot_at head d.vals)
    then (
      true,
      record d {
        head_tail = (d.head_tail + 2 ^ 32) % 2 ^ 64;
        vals = set d.vals (index head d.vals) (box val);
      },
    )
    else (false, d)

-- `popHead`; `none` stands for `nil, false`. `head--` runs on a uint32.
pub pop_head : PoolDequeue → Option Value × PoolDequeue
pop_head d =
    let head = unpack_head d.head_tail in
    let tail = unpack_tail d.head_tail in
    let head' = (head + 2 ^ 32 - 1) % 2 ^ 32 in
    if tail == head then (none, d) else (
      some (unbox (slot_at head' d.vals)),
      record { head_tail = pack head' tail; vals = set d.vals (index head' d.vals) empty },
    )

-- `popTail`
pub pop_tail : PoolDequeue → Option Value × PoolDequeue
pop_tail d =
    let head = unpack_head d.head_tail in
    let tail = unpack_tail d.head_tail in
    if tail == head then (none, d) else (
      some (unbox (slot_at tail d.vals)),
      record {
        head_tail = pack head ((tail + 1) % 2 ^ 32);
        vals = set d.vals (index tail d.vals) empty;
      },
    )
