-- ===== src/Xgin/Engine/Serve.antt =====
-- What an engine of xgin/gin.go answers, from the calls that set it up.
use srcrd.Prelude.{
  ℕ, ◌≡◌, ◌≢◌, refl, ap, ◌∙◌, Option, none, some, List, [], ◌∷◌, ◌++◌, if◌then◌else◌, arith,
}
use srcrd.Xgin.Chain.{HandlerFunc, Context, Outcome, ◌>>=◌, done, run_next}
use srcrd.Xgin.ResponseWriter.{Sent, ResponseWriter, default_status}
use srcrd.Xgin.Engine.{
  Str, same, MethodTree, Engine, new_engine, add_route, last_char, join_paths, handle,
  use_middleware, Body, handle_loop, header_now, serve_http,
}
use srcrd.Xgin.Engine
use srcrd.Xgin.ResponseWriter
use srcrd.Xgin.Engine.Routes.{find, find-add_route}

-- A call that sets an engine up: `Use`, or a route of a method and a path.
pub data Setup (H : Type 0) : Type 0 where
  middleware : List H → Setup H
  route : Str → Str → List H → Setup H

last_char-cons : (c : ℕ) (s : Str) → (d : ℕ) × (last_char (c ∷ s) ≡ some d)
last_char-cons c [] = (c, refl)
last_char-cons c (d ∷ s) = last_char-cons d s

last_char-nonempty : (s : Str) → s ≢ [] → (d : ℕ) × (last_char s ≡ some d)
last_char-nonempty [] h = absurd (h refl)
last_char-nonempty (c ∷ s) h = last_char-cons c s

module _ (path_join : Str → Str → Str) where
  -- The full path of a route, from the root "/".
  pub full_path_of : Str → Str
  full_path_of path = elim (join_paths path_join (47 ∷ []) path) [ none ↦ [] | some full ↦ full ]

  join_paths-total :
      (path : Str)
      → ((p : Str) → path_join (47 ∷ []) p ≢ [])
      → join_paths path_join (47 ∷ []) path ≡ some (full_path_of path)
  unfolding join_paths full_path_of
  join_paths-total [] h = refl
  join_paths-total (c ∷ path) h =
      let l = last_char-cons c path in
      let f = last_char-nonempty (path_join (47 ∷ []) (c ∷ path)) (h (c ∷ path)) in
      ground (arith, l.1, f.1)

  module _ {H : Type 0} where
    pub set_up : List (Setup H) → Engine H → Option (Engine H)
    set_up [] e = some e
    set_up (middleware hs ∷ ss) e = set_up ss (use_middleware hs e)
    set_up (route method path hs ∷ ss) e = elim (handle path_join method path hs e) [
      | none ↦ none
      | some e' ↦ set_up ss e'
    ]

    -- The last route of the method, whatever the path, behind the middleware that came before it.
    unfoldable pub last_route :
        Str → List H → Option (List H × Str) → List (Setup H) → Option (List H × Str)
    last_route m before found [] = found
    last_route m before found (middleware hs ∷ ss) = last_route m (before ++ hs) found ss
    last_route m before found (route method path hs ∷ ss) =
        last_route m before
          (if same method m then some (before ++ hs, full_path_of path) else found) ss

    record Ready (ss : List (Setup H)) (e : Engine H) : Type 0 where
      engine : Engine H
      ran : set_up ss e ≡ some engine
      found : (m : Str) → find m engine.trees ≡ last_route m e.handlers (find m e.trees) ss

    set_up-Ready :
        (ss : List (Setup H)) (e : Engine H)
        → ((p : Str) → path_join (47 ∷ []) p ≢ [])
        → e.base_path ≡ 47 ∷ []
        → Ready ss e
    unfolding set_up last_route handle use_middleware
    set_up-Ready [] e h b = record { engine = e; ran = refl; found = λ m. refl }
    set_up-Ready (middleware hs ∷ ss) e h b =
        let r = set_up-Ready ss (use_middleware hs e) h b in
        record { engine = r.engine; ran = r.ran; found = r.found }
    set_up-Ready (route method path hs ∷ ss) e h b =
        let joined = ap (λ p. join_paths path_join p path) b ∙ join_paths-total path h in
        let e' = record e {
          trees = add_route method (full_path_of path) (e.handlers ++ hs) e.trees;
        } in
        let r = set_up-Ready ss e' h b in
        record {
          engine = r.engine;
          ran = rw (joined, set_up, handle) r.ran;
          found = λ m.
              r.found m
              ∙ ap (λ f. last_route m e.handlers f ss)
                  (find-add_route method (full_path_of path) (e.handlers ++ hs) e.trees m);
        }

module _ {E V : Type 0} (perform : E → Body V → Body V) (fuel : ℕ) where
  -- The chain that was found runs, and the header goes out if it has not.
  pub respond :
      Option (List (HandlerFunc E) × Str) → Context E (Body V) → Outcome (Context E (Body V))
  respond none c = done c
  respond (some (hs, full)) c =
      run_next perform fuel (record c { handlers = hs; body = record c.body { full_path = full } })
      >>= λ c'. done (header_now perform c')

  handle_loop-find :
      (trees : List (MethodTree (HandlerFunc E))) (c : Context E (Body V))
      → handle_loop perform fuel trees c ≡ respond (find c.body.method trees) c
  unfolding handle_loop find respond
  handle_loop-find [] c = refl
  handle_loop-find (tree ∷ trees) c = ground (arith, handle_loop-find trees c)

-- What a request gets: the context as it was first, and the chain of the last route of its method.
pub spec_serve :
    {E V : Type 0} (perform : E → Body V → Body V) (fuel : ℕ) (w : List Sent) (method path : Str)
    → Option (List (HandlerFunc E) × Str)
    → Outcome (Context E (Body V))
spec_serve perform fuel w method path found = respond perform fuel found (record {
  handlers = [];
  index = 255;
  body = record {
    writermem = record { size = none; status = default_status; sent = w };
    method = method;
    path = path;
    full_path = [];
    keys = none;
  };
})

-- If `path.Join` of "/" and anything is not empty, calls that set up a new engine do not panic. A request
-- to the engine that they make, on any context of the pool, then gives the result of a context in its
-- first state: the last route that was added for the method runs, behind the middleware that was added
-- before it, and the header goes out at the end. The path of the request is not compared with the route's.
pub serve_http-set_up :
    {E V : Type 0} (path_join : Str → Str → Str) (perform : E → Body V → Body V)
    (ss : List (Setup (HandlerFunc E)))
    → ((p : Str) → path_join (47 ∷ []) p ≢ [])
    → (e : Engine (HandlerFunc E)) × (set_up path_join ss new_engine ≡ some e)
      × ((fuel : ℕ) (w : List Sent) (method path : Str) (c : Context E (Body V))
          → serve_http perform fuel e w method path c
            ≡ spec_serve perform fuel w method path (last_route path_join method [] none ss))
unfolding serve_http spec_serve Engine.reset ResponseWriter.reset find new_engine
serve_http-set_up path_join perform ss h =
    let r = set_up-Ready path_join ss new_engine h refl in
    (
      r.engine,
      r.ran,
      λ fuel w method path c.
          handle_loop-find perform fuel r.engine.trees _
          ∙ ap (spec_serve perform fuel w method path) (r.found method),
    )
