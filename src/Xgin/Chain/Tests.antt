-- ===== src/Xgin/Chain/Tests.antt =====
-- A chain of two handlers, and one of 128.
use srcrd.Prelude.{ℕ, zero, suc, ◌+◌, ◌≡◌, refl, List, [], ◌∷◌, ◌++◌, length, arith}
use srcrd.Xgin.Chain.{HandlerFunc, next, act, done, run_next}
use srcrd.Xgin.Chain.Onion.{
  all_nexts, nexts, onion, perform_all, acts, around, Ends, run_next-onion,
}
use srcrd.Xgin.Chain.Long.{long_chain_skipped}

-- An action notes a number.
abbrev note : ℕ → List ℕ → List ℕ
note e b = b ++ (e ∷ [])

-- A middleware around a handler.
abbrev two : List (HandlerFunc ℕ)
two = (act 1 ∷ next ∷ act 3 ∷ []) ∷ (act 2 ∷ []) ∷ []

two-onion : onion two ≡ 1 ∷ 2 ∷ 3 ∷ []
unfolding onion around acts
two-onion = refl

run_next-onion_example :
    Ends
      (λ f. run_next note f (record { handlers = two; index = 255; body = [] }))
      (record {
        handlers = two;
        index = length two + all_nexts two;
        body = perform_all note (onion two) [];
      })
unfolding all_nexts nexts
run_next-onion_example = run_next-onion note two [] (omega arith)

abbrev many : ℕ → List (HandlerFunc ℕ)
many zero = []
many (suc n) = (act 1 ∷ []) ∷ many n

long_chain_skipped_example :
    run_next note 3 (record { handlers = many 128; index = 255; body = [] })
    ≡ done (record { handlers = many 128; index = 0; body = [] })
long_chain_skipped_example = long_chain_skipped note (many 128) [] 2 (omega arith) (omega arith)
