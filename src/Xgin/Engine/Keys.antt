-- ===== src/Xgin/Engine/Keys.antt =====
-- `Set` and `Get` of xgin/context.go. They lock a mutex of the context around one access of the map, so that
-- each is a step of its own; the map is a list of keys and values.
use srcrd.Prelude.{
  ◌≡◌, refl, sym, ap, ◌∙◌, inl, inr, Bool, true, false, Option, none, some, List, [], ◌∷◌,
  Bool-cases, if◌then◌else◌,
}
use srcrd.Xgin.Chain.{Context}
use srcrd.Xgin.Engine.{Str, same, Body, reset}
use srcrd.Xgin.Engine.Routes.{same_refl, same_eq, same_apart}

module _ {V : Type 0} where
  -- `keys[key] = value`, and `keys[key]`.
  pub put : Str → V → List (Str × V) → List (Str × V)
  put key value [] = (key, value) ∷ []
  put key value ((k, v) ∷ keys) =
      let rest = put key value keys in if same k key then (k, value) ∷ keys else (k, v) ∷ rest

  pub lookup : Str → List (Str × V) → Option V
  lookup key [] = none
  lookup key ((k, v) ∷ keys) = let rest = lookup key keys in if same k key then some v else rest

  -- `Set`
  pub set_key : Str → V → Body V → Body V
  set_key key value c = elim c.keys [
    | none ↦ record c { keys = some (put key value []) }
    | some keys ↦ record c { keys = some (put key value keys) }
  ]

  -- `Get`
  pub get_key : Str → Body V → Option V
  get_key key c = elim c.keys [ none ↦ none | some keys ↦ lookup key keys ]

  lookup-put :
      (key key' : Str) (value : V) (keys : List (Str × V))
      → lookup key (put key' value keys) ≡ (if same key' key then some value else lookup key keys)
  unfolding lookup put
  lookup-put key key' value [] = refl
  lookup-put key key' value ((k, v) ∷ keys) = elim (Bool-cases (same k key')) [
    | inl e ↦ rw (sym (same_eq k key' e), same_refl k) (either (same k key))
    | inr e ↦ rw e (elim (Bool-cases (same k key)) [
      | inl f ↦ rw (f, same_apart k key' key e f) refl
      | inr f ↦ rw f (lookup-put key key' value keys)
    ])
  ]
    where
      either :
          (b : Bool)
          → (if b then some value else lookup key keys)
            ≡ (if b then some value else (if b then some v else lookup key keys))
      either true = refl
      either false = refl

  get_key-set_key :
      (key key' : Str) (value : V) (c : Body V)
      → get_key key (set_key key' value c) ≡ (if same key' key then some value else get_key key c)
  unfolding get_key set_key lookup
  get_key-set_key key key' value c = get_of c.keys
    where
      get_of :
          (keys : Option (List (Str × V)))
          → get_key key (set_key key' value (record c { keys = keys }))
            ≡ (if same key' key then some value else get_key key (record c { keys = keys }))
      get_of none = lookup-put key key' value []
      get_of (some keys) = lookup-put key key' value keys

  -- Handlers that set keys one after the other.
  unfoldable pub set_all : List (Str × V) → Body V → Body V
  set_all [] c = c
  set_all ((key, value) ∷ more) c = set_all more (set_key key value c)

  -- The last value of a key in such a list.
  unfoldable pub latest : Str → Option V → List (Str × V) → Option V
  latest key found [] = found
  latest key found ((k, v) ∷ more) = latest key (if same k key then some v else found) more

  get_key-set_all :
      (key : Str) (sets : List (Str × V)) (c : Body V)
      → get_key key (set_all sets c) ≡ latest key (get_key key c) sets
  unfolding set_all latest
  get_key-set_all key [] c = refl
  get_key-set_all key ((k, v) ∷ more) c =
      get_key-set_all key more (set_key k v c)
      ∙ ap (λ found. latest key found more) (get_key-set_key key k v c)

-- In a request, `Get` of a key gives the value that was set last for it, and nothing if none was: what an
-- earlier request left in the context of the pool is gone after `reset`.
pub get_key-reset :
    {E V : Type 0} (perform : E → Body V → Body V) (key : Str) (sets : List (Str × V))
    (c : Context E (Body V))
    → get_key key (set_all sets (reset perform c).body) ≡ latest key none sets
unfolding reset get_key
get_key-reset perform key sets c = get_key-set_all key sets (reset perform c).body
