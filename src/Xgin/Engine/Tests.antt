-- ===== src/Xgin/Engine/Tests.antt =====
-- An engine with a middleware and two routes of one method.
use srcrd.Prelude.{ℕ, ◌≡◌, refl, ◌≢◌, none, some, List, [], ◌∷◌, ◌++◌, arith}
use srcrd.Xgin.Chain.{HandlerFunc, next, act, Context}
use srcrd.Xgin.ResponseWriter.{Sent}
use srcrd.Xgin.Engine.{Str, Engine, new_engine, Body, serve_http}
use srcrd.Xgin.Engine.Serve.{
  Setup, middleware, route, set_up, last_route, full_path_of, spec_serve, serve_http-set_up,
}

-- A join of paths that puts them after each other.
abbrev joined : Str → Str → Str
joined a b = a ++ b

joined-nonempty : (p : Str) → joined (47 ∷ []) p ≢ []
joined-nonempty p e = ground arith

abbrev get_method : Str
get_method = 71 ∷ 69 ∷ 84 ∷ []

abbrev ignore : ℕ → Body ℕ → Body ℕ
ignore n b = b

abbrev calls : List (Setup (HandlerFunc ℕ))
calls =
    middleware ((act 1 ∷ next ∷ []) ∷ [])
    ∷ route get_method (97 ∷ []) ((act 2 ∷ []) ∷ [])
    ∷ route get_method (98 ∷ []) ((act 3 ∷ []) ∷ [])
    ∷ []

-- A request for "/a" runs the handler of "/b".
calls_route :
    last_route joined get_method [] none calls
    ≡ some ((act 1 ∷ next ∷ []) ∷ (act 3 ∷ []) ∷ [], full_path_of joined (98 ∷ []))
unfolding last_route
calls_route = refl

serve_http-set_up_example :
    (e : Engine (HandlerFunc ℕ)) × (set_up joined calls new_engine ≡ some e)
    × ((fuel : ℕ) (w : List Sent) (method path : Str) (c : Context ℕ (Body ℕ))
        → serve_http ignore fuel e w method path c
          ≡ spec_serve ignore fuel w method path (last_route joined method [] none calls))
serve_http-set_up_example = serve_http-set_up joined ignore calls joined-nonempty
