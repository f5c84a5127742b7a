-- ===== src/Xsync/Map/Loads.antt =====
-- `Load` of xsync/map_load.go.
use srcrd.Prelude.{
  ℕ, ◌≡◌, refl, ◌∙◌, sym, true, false, none, some, arith, Bool-cases, Option-cases, inl, inr,
}
use srcrd.GoMap.{lookup}
use srcrd.Xsync.Map.{Map, miss_locked, load}
use srcrd.Xsync.Map.Inv.{IsValid, contents}
use srcrd.Xsync.Map.Effects.{Kept, Kept-refl, miss_locked-Kept}

load_hit : (k a : ℕ) (m : Map) → lookup k m.read.m ≡ some a → load k m ≡ (contents m k, m)
unfolding load contents
load_hit k a m e = ground arith

load_miss :
    (k : ℕ) (m : Map)
    → lookup k m.read.m ≡ none
    → m.read.amended ≡ true
    → load k m ≡ (contents m k, miss_locked m)
unfolding load contents
load_miss k m e d = ground arith

load_absent :
    (k : ℕ) (m : Map)
    → IsValid m
    → lookup k m.read.m ≡ none
    → m.read.amended ≡ false
    → load k m ≡ (contents m k, m)
unfolding load contents
load_absent k m v e d = ground (arith, v.coherent.no_dirty (sym v.amended ∙ d) k)

-- `Load` returns what the map holds at the key, and changes nothing of the contents.
pub load-Kept : (k : ℕ) (m : Map) → IsValid m → ((load k m).0 ≡ contents m k) × Kept m (load k m).1
load-Kept k m v = elim (Option-cases (lookup k m.read.m)) [
  | inr (a, e) ↦ rw (load_hit k a m e) (refl, Kept-refl m v)
  | inl e ↦ elim (Bool-cases m.read.amended) [
    | inl d ↦ rw (load_miss k m e d) (refl, miss_locked-Kept m v (sym v.amended ∙ d))
    | inr d ↦ rw (load_absent k m v e d) (refl, Kept-refl m v)
  ]
]
