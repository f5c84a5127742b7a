-- ===== src/Xsync/Map/Drops.antt =====
-- What a removal of xsync/map_delete.go does to the read and to the dirty part.
use srcrd.Prelude.{ℕ, ◌≡◌, ◌≢◌, ◌∙◌, sym, true, Option, none, some, arith, Option-cases, inl, inr}
use srcrd.GoMap.{lookup, delete, lookup-delete, delete-IsUnique}
use srcrd.Xsync.Map.{Pointer, nil, expunged, value, Map, update, entries, load_entry, delete_entry}
use srcrd.Xsync.Map.Inv.{is_dirty, IsValid, contents, IsCoherent-clear, IsCoherent-drop}
use srcrd.Xsync.Map.Effects.{delete-IsCoherent, Kept, Put, contents-write}

-- What `LoadAndDelete` does: it returns what the key held, and removes the key.
pub record Deleted (k : ℕ) (m : Map) (out : Option ℕ × Map) : Type 0 where
  pub result : out.0 ≡ contents m k
  pub put : Put k none m out.1

-- A key whose entry has no value is not there.
pub absent-Put : (k : ℕ) (m : Map) → IsValid m → contents m k ≡ none → Put k none m m
absent-Put k m v e = record { valid = v; holds = λ j. ground arith }

pub contents_read :
    (k a : ℕ) (m : Map) → lookup k m.read.m ≡ some a → contents m k ≡ load_entry (m.heap a)
unfolding contents
contents_read k a m r = ground arith

pub delete_entry-value :
    (a x : ℕ) (m : Map)
    → m.heap a ≡ value x
    → delete_entry a m ≡ (some x, record m { heap = update m.heap a nil })
unfolding delete_entry
delete_entry-value a x m e = ground arith

pub delete_entry-none :
    (a : ℕ) (m : Map) → load_entry (m.heap a) ≡ none → delete_entry a m ≡ (none, m)
unfolding delete_entry load_entry
delete_entry-none a m e = ground arith

pub value_of : (p : Pointer) {x : ℕ} → load_entry p ≡ some x → p ≡ value x
unfolding load_entry
value_of nil e = cc
value_of expunged e = cc
value_of (value y) e = cc

pub load_entry-expunged : {p : Pointer} {x : ℕ} → p ≡ value x → p ≢ expunged
load_entry-expunged e f = cc

-- `entry.delete` on an entry of the read part.
pub read-Deleted :
    (k a : ℕ) (m : Map) → IsValid m → lookup k m.read.m ≡ some a → Deleted k m (delete_entry a m)
unfolding load_entry
read-Deleted k a m v r = elim (Option-cases (load_entry (m.heap a))) [
  | inl e ↦ rw (delete_entry-none a m e) (record {
    result = sym (contents_read k a m r ∙ e);
    put = absent-Put k m v (contents_read k a m r ∙ e);
  })
  | inr (x, e) ↦
      let p = value_of (m.heap a) e in
      rw (delete_entry-value a x m p) (record {
        result = sym (contents_read k a m r ∙ e);
        put = record {
          valid = record {
            amended = v.amended;
            read_unique = v.read_unique;
            dirty_unique = v.dirty_unique;
            coherent = IsCoherent-clear v.coherent a (load_entry-expunged p);
          };
          holds = contents-write k a nil m v (inl r);
        };
      })
]

-- The dirty part without the key, as `delete(m.dirty, key)` leaves it.
abbrev pub dropped : ℕ → Map → Map
dropped k m = record m { dirty = some (delete k (entries m.dirty)) }

pub drop-Put :
    (k : ℕ) (m : Map)
    → IsValid m
    → lookup k m.read.m ≡ none
    → is_dirty m.dirty ≡ true
    → Put k none m (dropped k m)
unfolding contents
drop-Put k m v r d = record {
  valid = record {
    amended = v.amended ∙ d;
    read_unique = v.read_unique;
    dirty_unique = delete-IsUnique k (entries m.dirty) v.dirty_unique;
    coherent =
        delete-IsCoherent k (entries m.dirty) v.dirty_unique
          (rw d at (IsCoherent-drop v.coherent k r));
  };
  holds = λ j. ground (arith, lookup-delete k j (entries m.dirty) v.dirty_unique);
}

-- The entry that the key had is no longer reached, so that its value can go.
pub clear-Kept :
    (k a x : ℕ) (m : Map)
    → IsValid m
    → lookup k m.read.m ≡ none
    → lookup k (entries m.dirty) ≡ some a
    → m.heap a ≡ value x
    → IsValid (dropped k m)
    → Kept (dropped k m) (record (dropped k m) { heap = update m.heap a nil })
unfolding contents
clear-Kept k a x m v r e p w = record {
  valid = record {
    amended = w.amended;
    read_unique = w.read_unique;
    dirty_unique = w.dirty_unique;
    coherent = IsCoherent-clear w.coherent a (load_entry-expunged p);
  };
  same = λ j. ground (
    arith,
    lookup-delete k j (entries m.dirty) v.dirty_unique,
    owner_dirty k j a,
    owner_both j k a,
  );
}
  where
    open v.coherent use {owner_dirty, owner_both}
