-- ===== src/Xgin/Engine.antt =====
-- The engine of xgin/gin.go: the routes of xgin/routergroup.go, xgin/tree.go and xgin/util.go, and the
-- handling of a request. `path.Join` comes from outside and is a parameter.
pub mod Routes
pub mod Serve
pub mod Keys
mod Tests
use srcrd.Prelude.{
  ℕ, zero, suc, Bool, true, false, not, ◌&&◌, Option, none, some, List, [], ◌∷◌, ◌++◌, ◌==◌,
  if◌then◌else◌,
}
use srcrd.Xgin.Chain.{HandlerFunc, Context, Outcome, ◌>>=◌, done, run_next}
use srcrd.Xgin.ResponseWriter.{Sent, ResponseWriter, write_header_now}
use srcrd.Xgin.ResponseWriter

-- The bytes of a string.
abbrev pub Str : Type 0
Str = List ℕ

abbrev pub same : Str → Str → Bool
same [] [] = true
same [] (b ∷ bs) = false
same (a ∷ r) [] = false
same (a ∷ r) (b ∷ bs) = (a == b) && same r bs

-- `node`, less the fields that no code uses.
pub record Node (H : Type 0) : Type 0 where
  pub handlers : Option (List H)
  pub full_path : Str

-- `methodTree`; a node is reached through its tree alone.
pub record MethodTree (H : Type 0) : Type 0 where
  pub method : Str
  pub root : Node H

module _ {H : Type 0} where
  -- `methodTrees.get`
  pub get : Str → List (MethodTree H) → Option (Node H)
  get method [] = none
  get method (tree ∷ trees) = if same tree.method method then some tree.root else get method trees

  -- The assignments of `node.addRoute` to the root of the first tree of the method.
  pub set_root : Str → Str → List H → List (MethodTree H) → List (MethodTree H)
  set_root method path hs [] = []
  set_root method path hs (tree ∷ trees) =
      let rest = set_root method path hs trees in
      if same tree.method method
      then record tree { root = record { handlers = some hs; full_path = path } } ∷ trees
      else tree ∷ rest

  -- `Engine.addRoute`
  pub add_route : Str → Str → List H → List (MethodTree H) → List (MethodTree H)
  add_route method path hs trees = elim (get method trees) [
    | none ↦ set_root method path hs (
        trees
        ++ (record { method = method; root = record { handlers = none; full_path = 47 ∷ [] } }
            ∷ []))
    | some root ↦ set_root method path hs trees
  ]

-- `Engine`, with the `RouterGroup` that it is.
pub record Engine (H : Type 0) : Type 0 where
  pub handlers : List H
  pub base_path : Str
  pub trees : List (MethodTree H)

-- `New`
pub new_engine : {H : Type 0} → Engine H
new_engine = record { handlers = []; base_path = 47 ∷ []; trees = [] }

-- `lastChar`, which panics on the empty string.
abbrev pub last_char : Str → Option ℕ
last_char [] = none
last_char (c ∷ []) = some c
last_char (c ∷ d ∷ s) = last_char (d ∷ s)

module _ (path_join : Str → Str → Str) where
  -- `joinPaths`, where a panic is `none`.
  pub join_paths : Str → Str → Option Str
  join_paths absolute [] = some absolute
  join_paths absolute (c ∷ relative) =
      let final = path_join absolute (c ∷ relative) in
      elim (last_char (c ∷ relative)) [
        | none ↦ none
        | some last ↦
            if last == 47
            then elim (last_char final) [
              | none ↦ none
              | some end ↦ if end == 47 then some final else some (final ++ (47 ∷ []))
            ]
            else some final
      ]

  module _ {H : Type 0} where
    -- `combineHandlers`
    abbrev pub combine_handlers : Engine H → List H → List H
    combine_handlers e hs = e.handlers ++ hs

    -- `handle`, of which `GET` is the case of that method.
    pub handle : Str → Str → List H → Engine H → Option (Engine H)
    handle method relative hs e = elim (join_paths e.base_path relative) [
      | none ↦ none
      | some path ↦
          some (record e { trees = add_route method path (combine_handlers e hs) e.trees })
    ]

-- `Use`
pub use_middleware : {H : Type 0} → List H → Engine H → Engine H
use_middleware hs e = record e { handlers = e.handlers ++ hs }

-- What a request leaves in its context, besides the chain and `index`.
pub record Body (V : Type 0) : Type 0 where
  pub writermem : ResponseWriter
  pub method : Str
  pub path : Str
  pub full_path : Str
  pub keys : Option (List (Str × V))

module _ {E V : Type 0} (perform : E → Body V → Body V) where
  -- `Context.reset`
  pub reset : Context E (Body V) → Context E (Body V)
  reset c = record {
    handlers = [];
    index = 255;
    body = record c.body { full_path = []; keys = none };
  }

  -- `c.writermem.WriteHeaderNow()`
  abbrev pub header_now : Context E (Body V) → Context E (Body V)
  header_now c = record c { body = record c.body { writermem = write_header_now c.body.writermem } }

  -- The loop of `handleHTTPRequest`.
  pub handle_loop :
      ℕ → List (MethodTree (HandlerFunc E)) → Context E (Body V) → Outcome (Context E (Body V))
  handle_loop fuel [] c = done c
  handle_loop fuel (tree ∷ trees) c =
      let rest = handle_loop fuel trees c in
      let root = tree.root in
      if same tree.method c.body.method
      then elim root.handlers [
        | none ↦ rest
        | some hs ↦
            run_next perform fuel
              (record c { handlers = hs; body = record c.body { full_path = root.full_path } })
            >>= λ c'. done (header_now c')
      ]
      else rest

  -- `ServeHTTP`, on a context of the pool.
  pub serve_http :
      ℕ
      → Engine (HandlerFunc E)
      → List Sent
      → Str
      → Str
      → Context E (Body V)
      → Outcome (Context E (Body V))
  serve_http fuel e w method path c = handle_loop fuel e.trees (
      reset (record c {
        body = record c.body {
          writermem = ResponseWriter.reset w c.body.writermem;
          method = method;
          path = path;
        };
      }))
