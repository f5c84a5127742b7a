-- ===== src/Xsync/Map/Deletes.antt =====
-- `LoadAndDelete` of xsync/map_delete.go, on each of its paths.
use srcrd.Prelude.{
  ℕ, ◌≡◌, refl, ◌∙◌, sym, true, false, none, some, arith, Bool-cases, Option-cases, inl, inr,
}
use srcrd.GoMap.{lookup}
use srcrd.Xsync.Map.{
  Pointer, nil, value, Map, update, entries, miss_locked, load_entry, load_found, delete_entry,
  delete_found, delete_dirty, load_and_delete,
}
use srcrd.Xsync.Map.Inv.{is_dirty, IsValid, contents}
use srcrd.Xsync.Map.Effects.{Put, miss_locked-Kept, Put-Kept}
use srcrd.Xsync.Map.Drops.{
  Deleted, absent-Put, delete_entry-value, delete_entry-none, value_of, read-Deleted, dropped,
  drop-Put, clear-Kept,
}

-- A miss does not look at the entries.
miss_locked_heap :
    (m : Map) (h : ℕ → Pointer)
    → record (miss_locked m) { heap = h } ≡ miss_locked (record m { heap = h })
unfolding miss_locked
miss_locked_heap m h = ground arith

heap-miss_locked : (m : Map) → (miss_locked m).heap ≡ m.heap
unfolding miss_locked
heap-miss_locked m = ground arith

-- The branches of `delete_dirty`, as equations.
delete_dirty_absent :
    (k : ℕ) (m : Map)
    → lookup k (entries m.dirty) ≡ none
    → delete_dirty k m ≡ (none, miss_locked (dropped k m))
unfolding delete_dirty delete_found
delete_dirty_absent k m e = ground arith

delete_dirty_found :
    (k a : ℕ) (m : Map)
    → lookup k (entries m.dirty) ≡ some a
    → delete_dirty k m ≡ delete_entry a (miss_locked (dropped k m))
unfolding delete_dirty delete_found
delete_dirty_found k a m e = ground arith

delete_dirty-none :
    (k a : ℕ) (m : Map)
    → lookup k (entries m.dirty) ≡ some a
    → load_entry (m.heap a) ≡ none
    → delete_dirty k m ≡ (none, miss_locked (dropped k m))
delete_dirty-none k a m e n =
    delete_dirty_found k a m e
    ∙ delete_entry-none a (miss_locked (dropped k m)) (rw (heap-miss_locked (dropped k m)) n)

delete_dirty-value :
    (k a x : ℕ) (m : Map)
    → lookup k (entries m.dirty) ≡ some a
    → m.heap a ≡ value x
    → delete_dirty k m ≡ (some x, miss_locked (record (dropped k m) { heap = update m.heap a nil }))
delete_dirty-value k a x m e p =
    delete_dirty_found k a m e
    ∙ delete_entry-value a x (miss_locked (dropped k m)) (rw (heap-miss_locked (dropped k m)) p)
    ∙ rw (miss_locked_heap, heap-miss_locked (dropped k m))

contents_found :
    (k a : ℕ) (m : Map)
    → lookup k m.read.m ≡ none
    → lookup k (entries m.dirty) ≡ some a
    → contents m k ≡ load_entry (m.heap a)
unfolding contents load_found
contents_found k a m r e = ground arith

contents_absent :
    (k : ℕ) (m : Map)
    → lookup k m.read.m ≡ none
    → lookup k (entries m.dirty) ≡ none
    → contents m k ≡ none
unfolding contents load_found
contents_absent k m r e = ground arith

-- The path of `LoadAndDelete` under the lock.
dirty-Deleted :
    (k : ℕ) (m : Map)
    → IsValid m
    → lookup k m.read.m ≡ none
    → is_dirty m.dirty ≡ true
    → Deleted k m (delete_dirty k m)
dirty-Deleted k m v r d = elim (Option-cases (lookup k (entries m.dirty))) [
  | inl e ↦
      rw (delete_dirty_absent k m e)
        (record { result = sym (contents_absent k m r e); put = missed })
  | inr (a, e) ↦ elim (Option-cases (load_entry (m.heap a))) [
    | inl n ↦
        rw (delete_dirty-none k a m e n)
          (record { result = sym (contents_found k a m r e ∙ n); put = missed })
    | inr (x, s) ↦
        let p = value_of (m.heap a) s in
        let cleared = clear-Kept k a x m v r e p dropped_put.valid in
        rw (delete_dirty-value k a x m e p) (record {
          result = sym (contents_found k a m r e ∙ s);
          put = Put-Kept (Put-Kept dropped_put cleared) (miss_locked-Kept _ cleared.valid refl);
        })
  ]
]
  where
    dropped_put : Put k none m (dropped k m)
    dropped_put = drop-Put k m v r d

    missed : Put k none m (miss_locked (dropped k m))
    missed = Put-Kept dropped_put (miss_locked-Kept (dropped k m) dropped_put.valid refl)

delete_hit :
    (k a : ℕ) (m : Map) → lookup k m.read.m ≡ some a → load_and_delete k m ≡ delete_entry a m
unfolding load_and_delete delete_found
delete_hit k a m r = ground arith

delete_miss :
    (k : ℕ) (m : Map)
    → lookup k m.read.m ≡ none
    → m.read.amended ≡ true
    → load_and_delete k m ≡ delete_dirty k m
unfolding load_and_delete
delete_miss k m r d = ground arith

delete_absent :
    (k : ℕ) (m : Map)
    → lookup k m.read.m ≡ none
    → m.read.amended ≡ false
    → load_and_delete k m ≡ (none, m)
unfolding load_and_delete delete_found
delete_absent k m r d = ground arith

-- `LoadAndDelete` returns what the key held and removes the key, on each of its paths.
pub load_and_delete-Deleted : (k : ℕ) (m : Map) → IsValid m → Deleted k m (load_and_delete k m)
load_and_delete-Deleted k m v = elim (Option-cases (lookup k m.read.m)) [
  | inr (a, r) ↦ rw (delete_hit k a m r) (read-Deleted k a m v r)
  | inl r ↦ elim (Bool-cases m.read.amended) [
    | inl d ↦ rw (delete_miss k m r d) (dirty-Deleted k m v r (sym v.amended ∙ d))
    | inr d ↦
        let e = contents_absent k m r (v.coherent.no_dirty (sym v.amended ∙ d) k) in
        rw (delete_absent k m r d) (record { result = sym e; put = absent-Put k m v e })
  ]
]
