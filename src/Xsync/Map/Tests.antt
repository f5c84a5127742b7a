-- ===== src/Xsync/Map/Tests.antt =====
-- Runs of xsync/map*.go, and each theorem at one of them.
use srcrd.Prelude.{◌≡◌, refl, none, some, List, [], ◌∷◌}
use srcrd.GoMap.{lookup, insert, delete}
use srcrd.Xsync.Map.{
  Map, expunged, empty, load, store, load_and_delete, miss_locked, load_entry, try_store, copy_live,
  try_expunge_locked, load_found, store_slow, store_fresh, store_new, store_read, set_dirty,
  dirty_locked, unexpunge_locked, store_locked, delete_found, delete_entry,
}
use srcrd.Xsync.Map.Refine.{
  Call, load_call, store_call, take_call, delete_call, run, spec_run, spec_call, run-empty,
}

-- Two keys, a delete in the dirty part, and misses up to the promotion.
abbrev script : List Call
script =
    store_call 1 10
    ∷ store_call 2 20
    ∷ load_call 3
    ∷ load_call 3
    ∷ load_call 1
    ∷ take_call 1
    ∷ store_call 3 30
    ∷ store_call 1 11
    ∷ delete_call 2
    ∷ load_call 2
    ∷ load_call 1
    ∷ []

-- The map after the first four calls: both keys are in the read part, and there is no dirty part.
abbrev promoted : Map
promoted = (load 3 (load 3 (store 2 20 (store 1 10 empty))).1).1

promoted_parts : (promoted.dirty ≡ none) × (promoted.read.m ≡ (1, 0) ∷ (2, 1) ∷ [])
unfolding load load_found load_entry store store_slow store_fresh store_new store_read set_dirty
    dirty_locked copy_live try_expunge_locked unexpunge_locked store_locked try_store miss_locked
    lookup insert delete
promoted_parts = (refl, refl)

-- A key that was deleted in the read part is expunged when the next key is new.
expunged_entry : (store 3 30 (load_and_delete 1 promoted).1).heap 0 ≡ expunged
unfolding load load_found load_entry store store_slow store_fresh store_new store_read set_dirty
    dirty_locked copy_live try_expunge_locked unexpunge_locked store_locked try_store miss_locked
    lookup insert delete load_and_delete delete_found delete_entry
expunged_entry = refl

run-empty_example :
    run script empty
    ≡ none ∷ none ∷ none ∷ none ∷ some 10 ∷ some 10 ∷ none ∷ none ∷ none ∷ none ∷ some 11 ∷ []
unfolding spec_run spec_call
run-empty_example = run-empty script
