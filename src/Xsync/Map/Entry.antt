-- ===== src/Xsync/Map/Entry.antt =====
-- The ways in which `Store` of xsync/map_store.go reaches an entry: one that is there, one that was
-- expunged, and a new one.
use srcrd.Prelude.{ℕ, ◌≡◌, ◌≢◌, ◌∙◌, true, none, some, arith}
use srcrd.GoMap.{lookup, insert, lookup-insert, insert-IsUnique}
use srcrd.Xsync.Map.{
  expunged, value, Entries, Map, update, entries, load_entry, set_dirty, store_new,
}
use srcrd.Xsync.Map.Inv.{
  is_dirty, IsValid, contents, IsCoherent-store, IsCoherent-revive, IsCoherent-add,
}
use srcrd.Xsync.Map.Effects.{insert-IsCoherent, Put, contents-write, Leads}

-- A value goes through an entry that is not expunged.
pub write_value-Put :
    (k a x : ℕ) (m : Map)
    → IsValid m
    → Leads k a m
    → m.heap a ≢ expunged
    → Put k (some x) m (record m { heap = update m.heap a (value x) })
unfolding load_entry
write_value-Put k a x m v l live = record {
  valid = record {
    amended = v.amended;
    read_unique = v.read_unique;
    dirty_unique = v.dirty_unique;
    coherent = IsCoherent-store v.coherent a x live;
  };
  holds = contents-write k a (value x) m v l;
}

-- An expunged entry of the read part takes a value and goes back into the dirty part.
pub revive-Put :
    (k a x : ℕ) (m : Map) (d : Entries)
    → IsValid m
    → lookup k m.read.m ≡ some a
    → m.heap a ≡ expunged
    → m.dirty ≡ some d
    → Put k (some x) m (record m { heap = update m.heap a (value x); dirty = some (insert k a d) })
unfolding contents
revive-Put k a x m d v r e n = record {
  valid = record {
    amended = v.amended ∙ (rw n);
    read_unique = v.read_unique;
    dirty_unique = insert-IsUnique k a d (rw n at v.dirty_unique);
    coherent = insert-IsCoherent k a d (IsCoherent-revive (rw n at v.coherent) k a x r e);
  };
  holds =
      λ j. ground (arith, lookup-insert k j a d, owner_read k j a, owner_both k j a, gone k a r e);
}
  where
    open v.coherent use {owner_read, owner_both, gone}

-- A new entry for a key that neither part has.
pub store_new-Put :
    (k x : ℕ) (m : Map)
    → IsValid m
    → lookup k m.read.m ≡ none
    → lookup k (entries m.dirty) ≡ none
    → is_dirty m.dirty ≡ true
    → Put k (some x) m (store_new k x m)
unfolding store_new set_dirty contents
store_new-Put k x m v r d n = record {
  valid = record {
    amended = v.amended ∙ n;
    read_unique = v.read_unique;
    dirty_unique = insert-IsUnique k m.next (entries m.dirty) v.dirty_unique;
    coherent =
        rw n at
          (insert-IsCoherent k m.next (entries m.dirty) (IsCoherent-add v.coherent k x r d n));
  };
  holds = λ j.
      ground
        (arith, lookup-insert k j m.next (entries m.dirty), read_old j m.next, dirty_old j m.next);
}
  where
    open v.coherent use {read_old, dirty_old}
