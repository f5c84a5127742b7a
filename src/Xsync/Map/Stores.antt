-- ===== src/Xsync/Map/Stores.antt =====
-- `Store` of xsync/map_store.go, on each of its paths.
use mathlib.Core.Path.{fun_ext}
use srcrd.Prelude.{
  ℕ, ◌≡◌, ◌≢◌, ◌⊎◌, refl, ◌∙◌, sym, true, false, Option, none, some, [], arith, Bool-cases,
  Option-cases, inl, inr,
}
use srcrd.GoMap.{lookup, insert}
use srcrd.Xsync.Map.{
  Pointer, nil, expunged, value, Entries, Map, update, entries, try_store, unexpunge_locked,
  store_locked, copy_live, dirty_locked, set_dirty, store_read, store_new, store_fresh, store_slow,
  store,
}
use srcrd.Xsync.Map.Inv.{is_dirty, IsValid, contents}
use srcrd.Xsync.Map.Copy.{
  lookup-copy_live, copy_live-load, copy_live-IsUnique, dirty_locked-IsCoherent,
}
use srcrd.Xsync.Map.Effects.{Kept, Put, Kept-Put}
use srcrd.Xsync.Map.Entry.{write_value-Put, revive-Put, store_new-Put}

-- The steps of `store_fresh` where the map has no dirty part yet.
store_fresh_new :
    (k x : ℕ) (m : Map)
    → m.read.amended ≡ false
    → m.dirty ≡ none
    → store_fresh k x m
      ≡ store_new k x (record m {
        heap = (copy_live m.read.m m.heap []).0;
        read = record { m = m.read.m; amended = true };
        dirty = some (copy_live m.read.m m.heap []).1;
      })
unfolding store_fresh dirty_locked
store_fresh_new k x m e f = ground arith

-- A key that the read part lacks is not in the dirty part that `dirtyLocked` makes.
copied_absent :
    (m : Map)
    → IsValid m
    → (k : ℕ) → lookup k m.read.m ≡ none
    → lookup k (copy_live m.read.m m.heap []).1 ≡ none
unfolding lookup
copied_absent m v k r =
    ground (arith, lookup-copy_live m.read.m m.heap [] k v.read_unique v.coherent.owner_read)

-- The map after `dirtyLocked`, as `store_fresh` leaves it: valid, with the contents of before.
copied-Kept :
    (m : Map)
    → IsValid m
    → m.dirty ≡ none
    → Kept m (record m {
      heap = (copy_live m.read.m m.heap []).0;
      read = record { m = m.read.m; amended = true };
      dirty = some (copy_live m.read.m m.heap []).1;
    })
unfolding contents lookup
copied-Kept m v n = record {
  valid = record {
    amended = refl;
    read_unique = v.read_unique;
    dirty_unique = copy_live-IsUnique m.read.m m.heap [] tt;
    coherent = dirty_locked-IsCoherent m v.read_unique (rw n at v.coherent);
  };
  same = λ j. elim (Option-cases (lookup j m.read.m)) [
    | inl e ↦ ground (arith, n, copied_absent m v j e)
    | inr (a, e) ↦ ground (arith, copy_live-load m.read.m m.heap [] a)
  ];
}

store_fresh_old : (k x : ℕ) (m : Map) → m.read.amended ≡ true → store_fresh k x m ≡ store_new k x m
unfolding store_fresh
store_fresh_old k x m e = ground arith

not_dirty : (d : Option Entries) → is_dirty d ≡ false → d ≡ none
not_dirty none e = refl
not_dirty (some d) e = cc

store_fresh-Put :
    (k x : ℕ) (m : Map)
    → IsValid m
    → lookup k m.read.m ≡ none
    → lookup k (entries m.dirty) ≡ none
    → Put k (some x) m (store_fresh k x m)
store_fresh-Put k x m v r d = elim (Bool-cases m.read.amended) [
  | inl am ↦ rw (store_fresh_old k x m am) (store_new-Put k x m v r d (sym v.amended ∙ am))
  | inr am ↦
      let n = not_dirty m.dirty (sym v.amended ∙ am) in
      let kept = copied-Kept m v n in
      rw (store_fresh_new k x m am n)
        (Kept-Put kept (store_new-Put k x _ kept.valid r (copied_absent m v k r) refl))
]

-- The branches of `Store`, as equations.
store_live :
    (k x a : ℕ) (m : Map)
    → lookup k m.read.m ≡ some a
    → m.heap a ≢ expunged
    → store k x m ≡ record m { heap = update m.heap a (value x) }
unfolding store try_store
store_live k x a m e live = ground arith

update-update :
    (heap : ℕ → Pointer) (a : ℕ) (p q : Pointer) → update (update heap a p) a q ≡ update heap a q
update-update heap a p q = fun_ext λ b. ground arith

store_expunged :
    (k x a : ℕ) (m : Map) (d : Entries)
    → lookup k m.read.m ≡ some a
    → m.heap a ≡ expunged
    → m.dirty ≡ some d
    → store k x m ≡ record m { heap = update m.heap a (value x); dirty = some (insert k a d) }
unfolding store try_store store_slow store_read unexpunge_locked store_locked set_dirty
store_expunged k x a m d e gone n = ground (arith, update-update m.heap a nil (value x))

store_dirty :
    (k x a : ℕ) (m : Map)
    → lookup k m.read.m ≡ none
    → lookup k (entries m.dirty) ≡ some a
    → store k x m ≡ record m { heap = update m.heap a (value x) }
unfolding store store_slow store_locked
store_dirty k x a m e f = ground arith

store_neither :
    (k x : ℕ) (m : Map)
    → lookup k m.read.m ≡ none
    → lookup k (entries m.dirty) ≡ none
    → store k x m ≡ store_fresh k x m
unfolding store store_slow
store_neither k x m e f = ground arith

is_expunged : (p : Pointer) → (p ≡ expunged) ⊎ (p ≢ expunged)
is_expunged nil = inr (λ e. cc)
is_expunged expunged = inl refl
is_expunged (value v) = inr (λ e. cc)

-- An expunged entry means that there is a dirty part.
expunged_dirty :
    (m : Map) (k a : ℕ)
    → IsValid m
    → lookup k m.read.m ≡ some a
    → m.heap a ≡ expunged
    → (d : Entries) × (m.dirty ≡ some d)
expunged_dirty m k a v r e = elim (Option-cases m.dirty) [
  | inl n ↦ absurd (v.coherent.read_live k a r (rw n) e)
  | inr (d, n) ↦ (d, n)
]

-- `Store` puts the value at its key and touches no other, on each of its paths.
pub store-Put : (k x : ℕ) (m : Map) → IsValid m → Put k (some x) m (store k x m)
store-Put k x m v = elim (Option-cases (lookup k m.read.m)) [
  | inr (a, r) ↦ elim (is_expunged (m.heap a)) [
    | inl e ↦
        let (d, n) = expunged_dirty m k a v r e in
        rw (store_expunged k x a m d r e n) (revive-Put k a x m d v r e n)
    | inr live ↦ rw (store_live k x a m r live) (write_value-Put k a x m v (inl r) live)
  ]
  | inl r ↦ elim (Option-cases (lookup k (entries m.dirty))) [
    | inr (a, d) ↦
        rw (store_dirty k x a m r d)
          (write_value-Put k a x m v (inr (r, d)) (v.coherent.dirty_live k a d))
    | inl d ↦ rw (store_neither k x m r d) (store_fresh-Put k x m v r d)
  ]
]
