-- ===== src/Xsync/Map/Copy.antt =====
-- `dirtyLocked` of xsync/map_store.go: the new dirty part has the live entries of the read part, and
-- the others are expunged.
use srcrd.Prelude.{
  ℕ, ◌≡◌, ◌≢◌, refl, ◌∙◌, Bool, true, false, none, some, [], ◌∷◌, ◌==◌, if◌then◌else◌, arith,
  Option-cases, inl, inr,
}
use srcrd.GoMap.{lookup, insert, IsUnique, lookup-insert, insert-IsUnique}
use srcrd.Xsync.Map.{
  Pointer, nil, expunged, value, Entries, Map, load_entry, try_expunge_locked, copy_live,
}
use srcrd.Xsync.Map.Inv.{IsCoherent}

-- What becomes of a pointer that the loop visits.
abbrev pub mark : Pointer → Pointer
mark nil = expunged
mark expunged = expunged
mark (value v) = value v

abbrev is_value : Pointer → Bool
is_value (value v) = true
is_value _ = false

-- No entry of the list stands at `a`.
abbrev Avoids : ℕ → Entries → Type 0
Avoids a l = (k : ℕ) → lookup k l ≢ some a

abbrev IsInjective : Entries → Type 0
IsInjective l = (k j a : ℕ) → lookup k l ≡ some a → lookup j l ≡ some a → k ≡ j

mark_one :
    (heap : ℕ → Pointer) (a b : ℕ)
    → (try_expunge_locked heap a).1 b ≡ (if a == b then mark (heap b) else heap b)
unfolding try_expunge_locked
mark_one heap a b = ground arith

gone_one :
    (heap : ℕ → Pointer) (a : ℕ)
    → (try_expunge_locked heap a).0 ≡ (elim (heap a) [ value v ↦ false | _ ↦ true ])
unfolding try_expunge_locked
gone_one heap a = ground arith

-- The loop marks at most; it never loses a value.
pub copy_live-load :
    (l : Entries) (heap : ℕ → Pointer) (d : Entries) (a : ℕ)
    → load_entry ((copy_live l heap d).0 a) ≡ load_entry (heap a)
unfolding copy_live load_entry
copy_live-load [] heap d a = refl
copy_live-load ((k, b) ∷ l) heap d a =
    copy_live-load l (try_expunge_locked heap b).1 _ a ∙ ground (arith, mark_one heap b a)

module _ (j b : ℕ) (l : Entries) (u : lookup j l ≡ none) (i : IsInjective ((j, b) ∷ l)) where
  tail-IsInjective : IsInjective l
  unfolding lookup
  tail-IsInjective k k' a e f = ground (arith, i k k' a)

  head-Avoids : Avoids b l
  unfolding lookup
  head-Avoids k e = ground (arith, i k j b)

copy_live-Avoids :
    (l : Entries) (heap : ℕ → Pointer) (d : Entries) (a : ℕ)
    → IsUnique l
    → Avoids a l
    → (copy_live l heap d).0 a ≡ heap a
unfolding copy_live lookup
copy_live-Avoids [] heap d a u h = refl
copy_live-Avoids ((k, b) ∷ l) heap d a u h =
    copy_live-Avoids l (try_expunge_locked heap b).1 _ a u.1 (λ j e. ground (arith, h j, u.0))
    ∙ ground (arith, mark_one heap b a, h k)

-- Every entry that the loop visits is marked.
pub copy_live-mark :
    (l : Entries) (heap : ℕ → Pointer) (d : Entries) (k a : ℕ)
    → IsUnique l
    → IsInjective l
    → lookup k l ≡ some a
    → (copy_live l heap d).0 a ≡ mark (heap a)
unfolding copy_live lookup
copy_live-mark [] heap d k a u i e = cc
copy_live-mark ((j, b) ∷ l) heap d k a u i e =
    let heap' = (try_expunge_locked heap b).1 in
    let d' = if (try_expunge_locked heap b).0 then d else insert j b d in
    ground (
      arith,
      copy_live-Avoids l heap' d' a u.1,
      copy_live-mark l heap' d' k a u.1 (tail-IsInjective j b l u.0 i),
      head-Avoids j b l u.0 i k,
      head-Avoids j b l u.0 i,
      mark_one heap b a,
    )

-- The dirty part gets the live entries of the list.
pub lookup-copy_live :
    (l : Entries) (heap : ℕ → Pointer) (d : Entries) (k : ℕ)
    → IsUnique l
    → IsInjective l
    → lookup k (copy_live l heap d).1 ≡ elim (lookup k l) [
      | none ↦ lookup k d
      | some a ↦ if is_value (heap a) then some a else lookup k d
    ]
unfolding copy_live lookup
lookup-copy_live [] heap d k u i = refl
lookup-copy_live ((j, b) ∷ l) heap d k u i =
    let heap' = (try_expunge_locked heap b).1 in
    let d' = if (try_expunge_locked heap b).0 then d else insert j b d in
    let ih = lookup-copy_live l heap' d' k u.1 (tail-IsInjective j b l u.0 i) in
    elim (Option-cases (lookup k l)) [
      | inl e ↦ ground (arith, ih, gone_one heap b, lookup-insert j k b d)
      | inr (a, e) ↦ ground (
        arith,
        ih,
        head-Avoids j b l u.0 i k,
        gone_one heap b,
        mark_one heap b a,
        lookup-insert j k b d,
      )
    ]

pub copy_live-IsUnique :
    (l : Entries) (heap : ℕ → Pointer) (d : Entries) → IsUnique d → IsUnique (copy_live l heap d).1
unfolding copy_live
copy_live-IsUnique [] heap d u = u
copy_live-IsUnique ((k, b) ∷ l) heap d u =
    copy_live-IsUnique l (try_expunge_locked heap b).1 _ (ground (arith, insert-IsUnique k b d))

-- `dirtyLocked` on a map without a dirty part keeps the two parts coherent.
pub dirty_locked-IsCoherent :
    (m : Map)
    → IsUnique m.read.m
    → IsCoherent m.heap m.next false (λ k. lookup k m.read.m) (λ k. none)
    → IsCoherent
        (copy_live m.read.m m.heap []).0
        m.next
        true
        (λ k. lookup k m.read.m)
        (λ k. lookup k (copy_live m.read.m m.heap []).1)
unfolding lookup
dirty_locked-IsCoherent m u c = record {
  no_dirty = λ e. cc;
  read_old = read_old;
  dirty_old = λ k a e. ground (arith, from_read k a e, read_old k a);
  read_live = λ k a e f. cc;
  dirty_live = λ k a e. ground (arith, from_read k a e, marked k a);
  shared = λ k a e f g. ground (arith, copied k, marked k a e, read_live k a e refl);
  gone = λ k a e f. ground (arith, copied k, marked k a e);
  owner_read = owner_read;
  owner_dirty = λ k j a e f. owner_read k j a (from_read k a e).0 (from_read j a f).0;
  owner_both = λ k j a e f. owner_read k j a e (from_read j a f).0;
}
  where
    open c use {read_old, read_live, owner_read}

    copied :
        (k : ℕ)
        → lookup k (copy_live m.read.m m.heap []).1 ≡ elim (lookup k m.read.m) [
          | none ↦ none
          | some a ↦ if is_value (m.heap a) then some a else none
        ]
    copied k = lookup-copy_live m.read.m m.heap [] k u owner_read

    marked :
        (k a : ℕ)
        → lookup k m.read.m ≡ some a
        → (copy_live m.read.m m.heap []).0 a ≡ mark (m.heap a)
    marked k a e = copy_live-mark m.read.m m.heap [] k a u owner_read e

    from_read :
        (k a : ℕ)
        → lookup k (copy_live m.read.m m.heap []).1 ≡ some a
        → (lookup k m.read.m ≡ some a) × (is_value (m.heap a) ≡ true)
    from_read k a e = ground (arith, copied k)
