-- ===== src/Xsync/Map/Inv.antt =====
-- The representation invariant of xsync/map.go, and the finite map that a `Map` stands for.
use srcrd.Prelude.{
  ℕ, ◌+◌, ◌<◌, ◌≡◌, ◌≢◌, refl, Bool, true, false, Option, none, some, ◌==◌, if◌then◌else◌, arith,
}
use srcrd.GoMap.{lookup, IsUnique}
use srcrd.Xsync.Map.{
  Pointer, nil, expunged, value, Entries, Map, update, empty, entries, load_entry, load_found,
}

abbrev pub is_dirty : Option Entries → Bool
is_dirty none = false
is_dirty (some d) = true

-- What the comments on `Map` and `entry` say of the two parts. `R` and `D` are the lookups in the
-- read part and in the dirty part.
pub record IsCoherent (heap : ℕ → Pointer) (next : ℕ) (dirty : Bool) (R D : ℕ → Option ℕ)
    : Type 0 where
  pub no_dirty : dirty ≡ false → (k : ℕ) → D k ≡ none
  pub read_old : (k a : ℕ) → R k ≡ some a → a < next
  pub dirty_old : (k a : ℕ) → D k ≡ some a → a < next
  pub read_live : (k a : ℕ) → R k ≡ some a → dirty ≡ false → heap a ≢ expunged
  pub dirty_live : (k a : ℕ) → D k ≡ some a → heap a ≢ expunged
  pub shared : (k a : ℕ) → R k ≡ some a → dirty ≡ true → heap a ≢ expunged → D k ≡ some a
  pub gone : (k a : ℕ) → R k ≡ some a → heap a ≡ expunged → D k ≡ none
  pub owner_read : (k j a : ℕ) → R k ≡ some a → R j ≡ some a → k ≡ j
  pub owner_dirty : (k j a : ℕ) → D k ≡ some a → D j ≡ some a → k ≡ j
  pub owner_both : (k j a : ℕ) → R k ≡ some a → D j ≡ some a → k ≡ j

pub record IsValid (m : Map) : Type 0 where
  pub amended : m.read.amended ≡ is_dirty m.dirty
  pub read_unique : IsUnique m.read.m
  pub dirty_unique : IsUnique (entries m.dirty)
  pub coherent :
      IsCoherent m.heap m.next
        (is_dirty m.dirty)
        (λ k. lookup k m.read.m)
        (λ k. lookup k (entries m.dirty))

-- The value at a key: the read part decides where it has the key, expunged or not.
unfoldable pub contents : Map → ℕ → Option ℕ
unfolding load_entry load_found
contents m k = elim (lookup k m.read.m) [
  | some a ↦ load_entry (m.heap a)
  | none ↦ load_found m.heap (lookup k (entries m.dirty))
]

pub empty-IsValid : IsValid empty
unfolding lookup
empty-IsValid = record {
  amended = refl;
  read_unique = tt;
  dirty_unique = tt;
  coherent = grind arith;
}

module _ {heap : ℕ → Pointer} {next : ℕ} {dirty : Bool} {R D : ℕ → Option ℕ}
    (c : IsCoherent heap next dirty R D) where
  open c use {no_dirty, read_old, dirty_old, read_live, dirty_live, shared, gone}
  open c use {owner_read, owner_dirty, owner_both}

  -- An entry takes a value.
  pub IsCoherent-store :
      (a v : ℕ) → heap a ≢ expunged → IsCoherent (update heap a (value v)) next dirty R D
  IsCoherent-store a v live = record {
    no_dirty = no_dirty;
    read_old = read_old;
    dirty_old = dirty_old;
    read_live = λ k b r n. ground (arith, read_live k b r n);
    dirty_live = λ k b r. ground (arith, dirty_live k b r);
    shared = λ k b r n l. ground (arith, shared k b r n);
    gone = λ k b r g. ground (arith, gone k b r);
    owner_read = owner_read;
    owner_dirty = owner_dirty;
    owner_both = owner_both;
  }

  -- The dirty part takes the place of the read part.
  pub IsCoherent-promote : dirty ≡ true → IsCoherent heap next false D (λ k. none)
  IsCoherent-promote d = record {
    no_dirty = λ e k. refl;
    read_old = dirty_old;
    dirty_old = λ k a e. cc;
    read_live = λ k a e n. dirty_live k a e;
    dirty_live = λ k a e. cc;
    shared = λ k a e n. cc;
    gone = λ k a e n. refl;
    owner_read = owner_dirty;
    owner_dirty = λ k j a e. cc;
    owner_both = λ k j a e f. cc;
  }

  -- A valid entry becomes nil.
  pub IsCoherent-clear : (a : ℕ) → heap a ≢ expunged → IsCoherent (update heap a nil) next dirty R D
  IsCoherent-clear a live = record {
    no_dirty = no_dirty;
    read_old = read_old;
    dirty_old = dirty_old;
    read_live = λ k b r n. ground (arith, read_live k b r n);
    dirty_live = λ k b r. ground (arith, dirty_live k b r);
    shared = λ k b r n l. ground (arith, shared k b r n);
    gone = λ k b r g. ground (arith, gone k b r);
    owner_read = owner_read;
    owner_dirty = owner_dirty;
    owner_both = owner_both;
  }

  -- An expunged entry takes a value and is put back into the dirty part.
  pub IsCoherent-revive :
      (k a v : ℕ)
      → R k ≡ some a
      → heap a ≡ expunged
      → IsCoherent (update heap a (value v)) next dirty R (λ j. if k == j then some a else D j)
  IsCoherent-revive k a v r x = record {
    no_dirty = λ d. absurd (read_live k a r d x);
    read_old = read_old;
    dirty_old = λ j b e. ground (arith, read_old k a r, dirty_old j b);
    read_live = λ j b e n. ground (arith, read_live j b e n);
    dirty_live = λ j b e. ground (arith, dirty_live j b);
    shared = λ j b e n l. ground (arith, shared j b e n, owner_read k j a r);
    gone = λ j b e g. ground (arith, gone j b e);
    owner_read = owner_read;
    owner_dirty =
        λ i j b e f. ground (arith, owner_dirty i j b, owner_both k j a r, owner_both k i a r);
    owner_both = λ i j b e f. ground (arith, owner_both i j b e, owner_read i k b e);
  }

  -- A new entry for a key that neither part has.
  pub IsCoherent-add :
      (k v : ℕ)
      → R k ≡ none
      → D k ≡ none
      → dirty ≡ true
      → IsCoherent
          (update heap next (value v))
          (next + 1)
          dirty
          R
          (λ j. if k == j then some next else D j)
  IsCoherent-add k v r d n = record {
    no_dirty = λ e. cc;
    read_old = λ j b e. omega (arith, read_old j b e);
    dirty_old = λ j b e. ground (arith, dirty_old j b);
    read_live = λ j b e f. cc;
    dirty_live = λ j b e. ground (arith, dirty_live j b);
    shared = λ j b e n l. ground (arith, shared j b e n, read_old j b e);
    gone = λ j b e g. ground (arith, gone j b e);
    owner_read = owner_read;
    owner_dirty = λ i j b e f. ground (arith, owner_dirty i j b, dirty_old i b, dirty_old j b);
    owner_both = λ i j b e f. ground (arith, owner_both i j b e, read_old i b e);
  }

  -- A key leaves the dirty part; the read part does not have it.
  pub IsCoherent-drop :
      (k : ℕ) → R k ≡ none → IsCoherent heap next dirty R (λ j. if k == j then none else D j)
  IsCoherent-drop k r = record {
    no_dirty = λ e j. ground (arith, no_dirty e j);
    read_old = read_old;
    dirty_old = λ j b e. ground (arith, dirty_old j b);
    read_live = read_live;
    dirty_live = λ j b e. ground (arith, dirty_live j b);
    shared = λ j b e n l. ground (arith, shared j b e n);
    gone = λ j b e g. ground (arith, gone j b e);
    owner_read = owner_read;
    owner_dirty = λ i j b e f. ground (arith, owner_dirty i j b);
    owner_both = λ i j b e f. ground (arith, owner_both i j b e);
  }
