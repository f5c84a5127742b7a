-- ===== src/Xsync/Map.antt =====
-- xsync/map.go, map_load.go, map_store.go and map_delete.go: the map that splits its contents
-- between a read part and a dirty part. Entries stand on a heap of their own, since the two parts
-- share them; each method runs as one goroutine runs it, so that a compare-and-swap succeeds.
pub mod Inv
pub mod Copy
pub mod Effects
pub mod Loads
pub mod Entry
pub mod Stores
pub mod Drops
pub mod Deletes
pub mod Refine
mod Tests
use srcrd.Prelude.{
  ℕ, zero, suc, ◌+◌, Bool, true, false, not, ◌&&◌, Option, none, some, List, [], ◌∷◌, length, ltb,
  ◌==◌, if◌then◌else◌,
}
use srcrd.GoMap.{GoMap, lookup, insert, delete}

-- What `entry.p` points to; `expunged` is the marker that the package allocates for itself.
pub data Pointer : Type 0 where
  nil expunged : Pointer
  value : ℕ → Pointer

-- A Go map from keys to addresses of entries.
abbrev pub Entries : Type 0
Entries = GoMap ℕ

pub record ReadOnly : Type 0 where
  pub m : Entries
  pub amended : Bool

-- `Map`, with the heap of its entries: `heap a` is the field `p` of the entry at address `a`, and
-- `next` is the address of the next `new`. A nil `dirty` is `none`.
pub record Map : Type 0 where
  pub heap : ℕ → Pointer
  pub next : ℕ
  pub read : ReadOnly
  pub dirty : Option Entries
  pub misses : ℕ

abbrev pub update : (ℕ → Pointer) → ℕ → Pointer → ℕ → Pointer
update f a p b = if a == b then p else f b

-- The zero value of `Map`.
abbrev pub empty : Map
empty = record {
  heap = λ _. nil;
  next = 0;
  read = record { m = []; amended = false };
  dirty = none;
  misses = 0;
}

-- A nil Go map has no entries and no length.
abbrev pub entries : Option Entries → Entries
entries none = []
entries (some d) = d

pub miss_locked : Map → Map
miss_locked m =
    let misses = m.misses + 1 in
    if ltb misses (length (entries m.dirty)) then record m { misses = misses } else record m {
      read = record { m = entries m.dirty; amended = false };
      dirty = none;
      misses = 0;
    }

-- `entry.load`
pub load_entry : Pointer → Option ℕ
load_entry nil = none
load_entry expunged = none
load_entry (value v) = some v

-- The last part of `Load`: `e.load()` if an entry was found.
load_found : (ℕ → Pointer) → Option ℕ → Option ℕ
load_found heap none = none
load_found heap (some a) = load_entry (heap a)

-- `Load`. The result of Go is the value and `ok`; here `none` stands for `nil, false`.
pub load : ℕ → Map → Option ℕ × Map
unfolding load_found
load key m = elim (lookup key m.read.m) [
  | some a ↦ (load_found m.heap (some a), m)
  | none ↦
      if m.read.amended
      then (load_found m.heap (lookup key (entries m.dirty)), miss_locked m)
      else (none, m)
]

-- `entry.tryStore`: whether the value was stored.
pub try_store : (ℕ → Pointer) → ℕ → ℕ → Option (ℕ → Pointer)
try_store heap a v = elim (heap a) [ expunged ↦ none | _ ↦ some (update heap a (value v)) ]

-- `entry.unexpungeLocked`: whether the entry was expunged, and the heap afterwards.
pub unexpunge_locked : (ℕ → Pointer) → ℕ → Bool × (ℕ → Pointer)
unexpunge_locked heap a = elim (heap a) [ expunged ↦ (true, update heap a nil) | _ ↦ (false, heap) ]

-- `entry.storeLocked`
pub store_locked : (ℕ → Pointer) → ℕ → ℕ → ℕ → Pointer
store_locked heap a v = update heap a (value v)

-- `entry.tryExpungeLocked`: whether the entry is expunged afterwards.
pub try_expunge_locked : (ℕ → Pointer) → ℕ → Bool × (ℕ → Pointer)
try_expunge_locked heap a = elim (heap a) [
  | nil ↦ (true, update heap a expunged)
  | expunged ↦ (true, heap)
  | value v ↦ (false, heap)
]

-- The loop of `dirtyLocked` over the entries of the read part.
pub copy_live : Entries → (ℕ → Pointer) → Entries → (ℕ → Pointer) × Entries
copy_live [] heap dirty = (heap, dirty)
copy_live ((k, a) ∷ rest) heap dirty =
    let (gone, heap') = try_expunge_locked heap a in
    copy_live rest heap' (if gone then dirty else insert k a dirty)

pub dirty_locked : Map → Map
dirty_locked m = elim m.dirty [
  | some d ↦ m
  | none ↦ let (heap, d) = copy_live m.read.m m.heap [] in record m { heap = heap; dirty = some d }
]

-- `m.dirty[key] = a`; the callers have made `dirty` non-nil.
pub set_dirty : ℕ → ℕ → Map → Map
set_dirty key a m = record m { dirty = some (insert key a (entries m.dirty)) }

-- The branch of `Store` for a key that the read part has.
store_read : ℕ → ℕ → ℕ → Map → Map
store_read key a v m =
    let (was_expunged, heap) = unexpunge_locked m.heap a in
    let m' = record m { heap = store_locked heap a v } in
    if was_expunged then set_dirty key a m' else m'

-- `newEntry`, with the entry put into the dirty part.
pub store_new : ℕ → ℕ → Map → Map
store_new key v m =
    set_dirty key m.next (record m { heap = update m.heap m.next (value v); next = m.next + 1 })

-- The branch of `Store` for a key that neither part has.
store_fresh : ℕ → ℕ → Map → Map
store_fresh key v m =
    if m.read.amended
    then store_new key v m
    else let m' = dirty_locked m in
      store_new key v (record m' { read = record { m = m'.read.m; amended = true } })

-- The part of `Store` under the lock.
store_slow : ℕ → ℕ → Map → Map
store_slow key v m = elim (lookup key m.read.m) [
  | some a ↦ store_read key a v m
  | none ↦ elim (lookup key (entries m.dirty)) [
    | some a ↦ record m { heap = store_locked m.heap a v }
    | none ↦ store_fresh key v m
  ]
]

-- `Store`. In one goroutine the part under the lock sees what the part before it saw.
pub store : ℕ → ℕ → Map → Map
store key v m = elim (lookup key m.read.m) [
  | some a ↦ elim (try_store m.heap a v) [
    | some heap ↦ record m { heap = heap }
    | none ↦ store_slow key v m
  ]
  | none ↦ store_slow key v m
]

-- `entry.delete`
pub delete_entry : ℕ → Map → Option ℕ × Map
delete_entry a m = elim (m.heap a) [
  | value v ↦ (some v, record m { heap = update m.heap a nil })
  | _ ↦ (none, m)
]

-- The last part of `LoadAndDelete`.
delete_found : Option ℕ → Map → Option ℕ × Map
delete_found none m = (none, m)
delete_found (some a) m = delete_entry a m

-- The part of `LoadAndDelete` under the lock: the dirty part loses the key, and a miss is recorded.
delete_dirty : ℕ → Map → Option ℕ × Map
delete_dirty key m =
    delete_found (lookup key (entries m.dirty))
      (miss_locked (record m { dirty = some (delete key (entries m.dirty)) }))

-- `LoadAndDelete`; `Delete` drops its result.
pub load_and_delete : ℕ → Map → Option ℕ × Map
load_and_delete key m = elim (lookup key m.read.m) [
  | some a ↦ delete_found (some a) m
  | none ↦ if m.read.amended then delete_dirty key m else delete_found none m
]
