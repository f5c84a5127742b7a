-- ===== src/Xstrings/Tests.antt =====
-- Two texts and an empty one.
use srcrd.Prelude.{ℕ, ◌+◌, ◌≡◌, refl, some, List, [], ◌∷◌, length, ltb, ◌&&◌, if◌then◌else◌, arith}
use srcrd.Xstrings.Join.{join, intercalate, join-eq-intercalate}

abbrev texts : List (List ℕ)
texts = (97 ∷ 98 ∷ []) ∷ [] ∷ (99 ∷ []) ∷ []

abbrev comma : List ℕ
comma = 44 ∷ []

texts_joined : intercalate comma texts ≡ 97 ∷ 98 ∷ 44 ∷ 44 ∷ 99 ∷ []
unfolding intercalate
texts_joined = refl

join-eq-intercalate_example :
    join (λ c n. c + n) texts comma
    ≡ some (
      intercalate comma texts,
      if ltb 1 (length texts) && ltb 0 (length (intercalate comma texts)) then 1 else 0,
    )
unfolding intercalate
join-eq-intercalate_example = join-eq-intercalate (λ c n. c + n) texts comma (omega arith)
