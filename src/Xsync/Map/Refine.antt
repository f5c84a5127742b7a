-- ===== src/Xsync/Map/Refine.antt =====
-- The map of xsync/map*.go against a plain dictionary: no sequence of calls tells them apart.
use mathlib.Core.Path.{fun_ext}
use srcrd.Prelude.{
  ℕ, ◌≡◌, refl, ap, ap₂, ◌∙◌, Option, none, some, List, [], ◌∷◌, ◌==◌, if◌then◌else◌,
}
use srcrd.GoMap.{lookup}
use srcrd.Xsync.Map.{Map, empty, load, store, load_and_delete, load_found}
use srcrd.Xsync.Map.Inv.{IsValid, contents, empty-IsValid}
use srcrd.Xsync.Map.Loads.{load-Kept}
use srcrd.Xsync.Map.Stores.{store-Put}
use srcrd.Xsync.Map.Deletes.{load_and_delete-Deleted}

-- A call on the map.
pub data Call : Type 0 where
  load_call : ℕ → Call
  store_call : ℕ → ℕ → Call
  take_call : ℕ → Call
  delete_call : ℕ → Call

-- What a call returns, with the map that it leaves; `Store` and `Delete` return nothing.
unfoldable pub call : Call → Map → Option ℕ × Map
call (load_call k) m = load k m
call (store_call k v) m = (none, store k v m)
call (take_call k) m = load_and_delete k m
call (delete_call k) m = (none, (load_and_delete k m).1)

-- The results of a sequence of calls.
unfoldable pub run : List Call → Map → List (Option ℕ)
run [] m = []
run (c ∷ cs) m = let (out, m') = call c m in out ∷ run cs m'

-- A dictionary, and the same calls on it.
abbrev pub Dictionary : Type 0
Dictionary = ℕ → Option ℕ

abbrev pub write : ℕ → Option ℕ → Dictionary → Dictionary
write k v f j = if k == j then v else f j

unfoldable pub spec_call : Call → Dictionary → Option ℕ × Dictionary
spec_call (load_call k) f = (f k, f)
spec_call (store_call k v) f = (none, write k (some v) f)
spec_call (take_call k) f = (f k, write k none f)
spec_call (delete_call k) f = (none, write k none f)

unfoldable pub spec_run : List Call → Dictionary → List (Option ℕ)
spec_run [] f = []
spec_run (c ∷ cs) f = let (out, f') = spec_call c f in out ∷ spec_run cs f'

-- One call: it keeps the invariant, returns what the dictionary returns, and leaves the contents
-- that the dictionary leaves.
pub record Agrees (c : Call) (m : Map) : Type 0 where
  pub valid : IsValid (call c m).1
  pub result : (call c m).0 ≡ (spec_call c (contents m)).0
  pub after : contents (call c m).1 ≡ (spec_call c (contents m)).1

-- Every call on a valid map keeps the map valid, and returns and leaves what the same call on the
-- dictionary of its contents returns and leaves.
pub call-Agrees : (c : Call) (m : Map) → IsValid m → Agrees c m
unfolding call spec_call
call-Agrees (load_call k) m v =
    let (out, kept) = load-Kept k m v in
    record { valid = kept.valid; result = out; after = fun_ext kept.same }
call-Agrees (store_call k x) m v =
    let p = store-Put k x m v in record { valid = p.valid; result = refl; after = fun_ext p.holds }
call-Agrees (take_call k) m v =
    let d = load_and_delete-Deleted k m v in
    record { valid = d.put.valid; result = d.result; after = fun_ext d.put.holds }
call-Agrees (delete_call k) m v =
    let d = load_and_delete-Deleted k m v in
    record { valid = d.put.valid; result = refl; after = fun_ext d.put.holds }

run_refines : (cs : List Call) (m : Map) → IsValid m → run cs m ≡ spec_run cs (contents m)
unfolding run spec_run
run_refines [] m v = refl
run_refines (c ∷ cs) m v =
    let a = call-Agrees c m v in
    ap₂ ◌∷◌ a.result (run_refines cs (call c m).1 a.valid ∙ ap (spec_run cs) a.after)

-- From the empty map, every sequence of calls of Load, Store and LoadAndDelete returns what the same
-- calls on a dictionary return.
pub run-empty : (cs : List Call) → run cs empty ≡ spec_run cs (λ _. none)
unfolding contents lookup load_found
run-empty cs = run_refines cs empty empty-IsValid ∙ ap (spec_run cs) (fun_ext λ j. refl)
