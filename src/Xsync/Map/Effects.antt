-- ===== src/Xsync/Map/Effects.antt =====
-- The two kinds of effect that a method of xsync/map.go has on the contents, and how a miss and a
-- write through an entry come under them.
use mathlib.Core.Path.{fun_ext}
use srcrd.Prelude.{
  ℕ, ◌+◌, ◌≡◌, ◌⊎◌, refl, Bool, true, false, Option, none, some, ◌==◌, if◌then◌else◌, arith,
  Bool-cases, Option-cases, inl, inr, ltb, length,
}
use srcrd.GoMap.{lookup, insert, delete, IsUnique, lookup-insert, lookup-delete}
use srcrd.Xsync.Map.{Pointer, Entries, Map, update, entries, miss_locked, load_entry}
use srcrd.Xsync.Map.Inv.{IsCoherent, is_dirty, IsValid, contents, IsCoherent-promote}

pub insert-IsCoherent :
    {heap : ℕ → Pointer} {next : ℕ} {dirty : Bool} {R : ℕ → Option ℕ} (k a : ℕ) (d : Entries)
    → IsCoherent heap next dirty R (λ j. if k == j then some a else lookup j d)
    → IsCoherent heap next dirty R (λ j. lookup j (insert k a d))
insert-IsCoherent k a d c = rw (fun_ext (λ j. lookup-insert k j a d)) c

pub delete-IsCoherent :
    {heap : ℕ → Pointer} {next : ℕ} {dirty : Bool} {R : ℕ → Option ℕ} (k : ℕ) (d : Entries)
    → IsUnique d
    → IsCoherent heap next dirty R (λ j. if k == j then none else lookup j d)
    → IsCoherent heap next dirty R (λ j. lookup j (delete k d))
delete-IsCoherent k d u c = rw (fun_ext (λ j. lookup-delete k j d u)) c

-- What an operation that only reads leaves behind.
pub record Kept (m m' : Map) : Type 0 where
  pub valid : IsValid m'
  pub same : (j : ℕ) → contents m' j ≡ contents m j

-- What an operation that puts `v` at `k` leaves behind; `none` stands for a removal.
pub record Put (k : ℕ) (v : Option ℕ) (m m' : Map) : Type 0 where
  pub valid : IsValid m'
  pub holds : (j : ℕ) → contents m' j ≡ (if k == j then v else contents m j)

-- A miss never changes the contents, whether or not it promotes the dirty part.
pub miss_locked-Kept : (m : Map) → IsValid m → is_dirty m.dirty ≡ true → Kept m (miss_locked m)
unfolding miss_locked contents lookup
miss_locked-Kept m v d = elim (Bool-cases (ltb (m.misses + 1) (length (entries m.dirty)))) [
  | inl few ↦ rw few (record {
    valid = record {
      amended = v.amended;
      read_unique = v.read_unique;
      dirty_unique = v.dirty_unique;
      coherent = v.coherent;
    };
    same = λ j. refl;
  })
  | inr many ↦ rw many (record {
    valid = record {
      amended = refl;
      read_unique = v.dirty_unique;
      dirty_unique = tt;
      coherent = let c = IsCoherent-promote v.coherent d in c;
    };
    same = promoted;
  })
]
  where
    open v.coherent use {shared, gone, dirty_live}

    promoted :
        (j : ℕ)
        → contents
            (record m {
              read = record { m = entries m.dirty; amended = false };
              dirty = none;
              misses = 0;
            })
            j
          ≡ contents m j
    promoted j = elim (Option-cases (lookup j m.read.m)) [
      | inl e ↦ ground (arith)
      | inr (a, e) ↦ ground (arith, shared j a e d, gone j a e)
    ]

pub Kept-refl : (m : Map) → IsValid m → Kept m m
Kept-refl m v = record { valid = v; same = λ j. refl }

pub Kept-Put : {k : ℕ} {x : Option ℕ} {m m' m'' : Map} → Kept m m' → Put k x m' m'' → Put k x m m''
Kept-Put {k} h p = record { valid = p.valid; holds = λ j. ground (arith, p.holds j, h.same j) }

pub Put-Kept : {k : ℕ} {x : Option ℕ} {m m' m'' : Map} → Put k x m m' → Kept m' m'' → Put k x m m''
Put-Kept {k} p h = record { valid = h.valid; holds = λ j. ground (arith, p.holds j, h.same j) }

-- Key `k` is the one that leads to the entry at `a`.
abbrev pub Leads : ℕ → ℕ → Map → Type 0
Leads k a m =
    (lookup k m.read.m ≡ some a)
    ⊎ (lookup k m.read.m ≡ none) × (lookup k (entries m.dirty) ≡ some a)

-- A write through an entry shows at its own key, and nowhere else.
pub contents-write :
    (k a : ℕ) (p : Pointer) (m : Map)
    → IsValid m
    → Leads k a m
    → (j : ℕ)
    → contents (record m { heap = update m.heap a p }) j
      ≡ (if k == j then load_entry p else contents m j)
unfolding contents
contents-write k a p m v l j =
    ground (arith, owner_read k j a, owner_dirty k j a, owner_both k j a, owner_both j k a)
  where
    open v.coherent use {owner_read, owner_dirty, owner_both}
