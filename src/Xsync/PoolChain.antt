-- ===== src/Xsync/PoolChain.antt =====
-- xsync/pool_chain.go: the queue of rings that doubles in size. A chain is the list of its rings from
-- `tail` to `head`, so that `next` is the ring behind and `prev` the ring before; a chain that has not
-- been used is empty. Each method runs as one goroutine runs it.
pub mod Rings
pub mod Push
pub mod Refine
pub mod Session
mod Tests
use srcrd.Prelude.{
  ℕ, zero, suc, ◌+◌, ◌*◌, Bool, true, false, Option, none, some, List, [], ◌∷◌, length, replicate,
  leb, if◌then◌else◌,
}
use srcrd.Xsync.PoolQueue
use srcrd.Xsync.PoolQueue.{Value, empty, PoolDequeue, dequeue_limit}

abbrev pub PoolChain : Type 0
PoolChain = List PoolDequeue

-- `new(poolChainElt)` with `make([]eface, n)`
pub new_dequeue : ℕ → PoolDequeue
new_dequeue n = record { head_tail = 0; vals = replicate n empty }

abbrev pub init_size : ℕ
init_size = 8

-- The size of the ring that follows a full one.
pub next_size : ℕ → ℕ
next_size n = if leb dequeue_limit (n * 2) then dequeue_limit else n * 2

-- A ring for a value that the ring `d` at the head refused, or `d` with the value.
grow : Value → PoolDequeue → PoolChain
unfolding next_size new_dequeue
grow val d =
    let (done, d') = PoolQueue.push_head val d in
    if done
    then d' ∷ []
    else d' ∷ (PoolQueue.push_head val (new_dequeue (next_size (length d.vals)))).1 ∷ []

-- `pushHead`: the head is the last ring.
push_last : Value → PoolDequeue → PoolChain → PoolChain
unfolding grow
push_last val d [] = grow val d
push_last val d (e ∷ rest) = d ∷ push_last val e rest

pub push_head : Value → PoolChain → PoolChain
unfolding push_last
push_head val [] = push_last val (new_dequeue init_size) []
push_head val (d ∷ rest) = push_last val d rest

-- `popHead`: the rings are tried from the head back along `prev`.
pub pop_head : PoolChain → Option Value × PoolChain
pop_head [] = (none, [])
pop_head (d ∷ newer) =
    let (out, newer') = pop_head newer in
    elim out [
      | some x ↦ (some x, d ∷ newer')
      | none ↦ let (out', d') = PoolQueue.pop_head d in (out', d' ∷ newer')
    ]

-- `popTail`: a drained ring that has a next one is dropped.
pop_first : PoolDequeue → PoolChain → Option Value × PoolChain
pop_first d [] = let (out, d') = PoolQueue.pop_tail d in (out, d' ∷ [])
pop_first d (d2 ∷ rest) =
    let later = pop_first d2 rest in
    let (out, d') = PoolQueue.pop_tail d in
    elim out [ some x ↦ (some x, d' ∷ d2 ∷ rest) | none ↦ later ]

pub pop_tail : PoolChain → Option Value × PoolChain
unfolding pop_first
pop_tail [] = (none, [])
pop_tail (d ∷ rest) = pop_first d rest
