-- ===== src/Xgin/Chain/Long.antt =====
-- Chains of xgin/context.go whose length is no int8.
use srcrd.Prelude.{ℕ, suc, ◌≤◌, ◌<◌, ◌≡◌, refl, false, List, length, arith}
use srcrd.Xgin.Chain.{HandlerFunc, lt8, int8, done, next_loop, run_next}

-- On a chain of 128 to 255 handlers `Next` ends at once, and no handler runs.
pub long_chain_skipped :
    {E B : Type 0} (perform : E → B → B) (hs : List (HandlerFunc E)) (b : B) (fuel : ℕ)
    → 128 ≤ length hs
    → length hs < 256
    → run_next perform (suc fuel) (record { handlers = hs; index = 255; body = b })
      ≡ done (record { handlers = hs; index = 0; body = b })
unfolding run_next next_loop
long_chain_skipped perform hs b fuel h l =
    let skipped : lt8 0 (int8 (length hs)) ≡ false = ground arith in rw skipped refl
