-- ===== src/Xgin/Chain.antt =====
-- The chain of handlers of xgin/context.go. A handler is code of the program that uses the package: it
-- is a list of calls of `c.Next()` and of other actions, which are a parameter.
pub mod Onion
pub mod Long
mod Tests
use srcrd.Prelude.{
  ℕ, zero, suc, ◌+◌, ◌%◌, ◌^◌, Bool, true, false, Option, none, some, List, [], ◌∷◌, length,
  get_elem?, ltb, if◌then◌else◌,
}

pub data Call (E : Type 0) : Type 0 where
  next : Call E
  act : E → Call E

-- `HandlerFunc`
abbrev pub HandlerFunc : Type 0 → Type 0
HandlerFunc E = List (Call E)

-- `Context`: the chain, `index` as the bit pattern of an int8, and all that actions change.
pub record Context (E B : Type 0) : Type 0 where
  pub handlers : List (HandlerFunc E)
  pub index : ℕ
  pub body : B

-- The end of a call, a panic for an index out of range, or a call that has not ended on its fuel.
pub data Outcome (C : Type 0) : Type 0 where
  done : C → Outcome C
  out_of_range unfinished : Outcome C

infixl 5 ◌>>=◌
abbrev pub ◌>>=◌ : {C : Type 0} → Outcome C → (C → Outcome C) → Outcome C
done c >>= f = f c
out_of_range >>= f = out_of_range
unfinished >>= f = unfinished

-- The order of int8 on bit patterns, and `int8(n)`.
abbrev pub lt8 : ℕ → ℕ → Bool
lt8 a b = ltb ((a + 128) % 256) ((b + 128) % 256)

abbrev pub int8 : ℕ → ℕ
int8 n = n % 256

-- `handlers[index]`, where a negative index is out of range.
abbrev pub handler_at : {E : Type 0} → List (HandlerFunc E) → ℕ → Option (HandlerFunc E)
handler_at hs i = if ltb i 128 then get_elem? hs i else none

module _ {E B : Type 0} (perform : E → B → B) where
  abbrev pub increment : Context E B → Context E B
  increment c = record c { index = (c.index + 1) % 256 }

  mutual
    -- The loop of `Next`.
    pub next_loop : ℕ → Context E B → Outcome (Context E B)
    next_loop zero c = unfinished
    next_loop (suc fuel) c =
        let rest : Outcome (Context E B) = elim (handler_at c.handlers c.index) [
          | none ↦ out_of_range
          | some h ↦ run_handler fuel h c >>= λ c'. next_loop fuel (increment c')
        ] in
        if lt8 c.index (int8 (length c.handlers)) then rest else done c

    -- A call of a handler.
    pub run_handler : ℕ → HandlerFunc E → Context E B → Outcome (Context E B)
    run_handler zero h c = unfinished
    run_handler (suc fuel) [] c = done c
    run_handler (suc fuel) (act e ∷ h) c = run_handler fuel h (record c { body = perform e c.body })
    run_handler (suc fuel) (next ∷ h) c =
        next_loop fuel (increment c) >>= λ c'. run_handler fuel h c'

  -- `Next`
  pub run_next : ℕ → Context E B → Outcome (Context E B)
  run_next fuel c = next_loop fuel (increment c)
