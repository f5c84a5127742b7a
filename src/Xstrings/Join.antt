-- ===== src/Xstrings/Join.antt =====
-- xstrings/join.go: Join, and the text that it promises.
use srcrd.Prelude.{
  ℕ, suc, ◌+◌, ◌*◌, ◌%◌, ◌^◌, ◌≤◌, ◌<◌, ◌≡◌, refl, sym, ap, ◌∙◌, ◌&&◌, Option, none, some, List, [],
  ◌∷◌, ◌++◌, length, length-append, append_assoc, append-nil, true, ltb, leb, if◌then◌else◌, arith,
}
use srcrd.Xstrings.Builder.{Builder, write_string, grow, reserve}

-- The loop that adds up the lengths, on the bit pattern of `n`.
pub add_lengths : ℕ → List (List ℕ) → ℕ
add_lengths n [] = n
add_lengths n (s ∷ ss) = add_lengths ((n + length s) % 2 ^ 64) ss

-- The loop that writes.
pub write_loop : (ℕ → ℕ → ℕ) → List ℕ → List (List ℕ) → Builder → Builder
write_loop growth sep [] b = b
write_loop growth sep (s ∷ ss) b =
    write_loop growth sep ss (write_string growth s (write_string growth sep b))

abbrev pub empty_builder : Builder
empty_builder = record { buf = []; capacity = 0; allocations = 0 }

-- The part of `Join` after `Grow`.
pub finish : (ℕ → ℕ → ℕ) → List ℕ → List (List ℕ) → List ℕ → Option Builder → Option (List ℕ × ℕ)
finish growth s ss sep none = none
finish growth s ss sep (some b) =
    let b' = write_loop growth sep ss (write_string growth s b) in some (b'.buf, b'.allocations)

-- The text of `Join` and the number of allocations; `none` is the panic of Grow.
pub join : (ℕ → ℕ → ℕ) → List (List ℕ) → List ℕ → Option (List ℕ × ℕ)
join growth [] sep = some ([], 0)
join growth (s ∷ []) sep = some (s, 0)
join growth (s ∷ t ∷ ss) sep =
    let n = add_lengths ((length sep * suc (length ss)) % 2 ^ 64) (s ∷ t ∷ ss) in
    finish growth s (t ∷ ss) sep (grow n empty_builder)

-- The texts with the separator between them.
unfoldable pub intercalate : List ℕ → List (List ℕ) → List ℕ
intercalate sep [] = []
intercalate sep (s ∷ []) = s
intercalate sep (s ∷ t ∷ ss) = s ++ sep ++ intercalate sep (t ∷ ss)

sum_lengths : List (List ℕ) → ℕ
sum_lengths [] = 0
sum_lengths (s ∷ ss) = length s + sum_lengths ss

add_lengths_lem :
    (n : ℕ) (ss : List (List ℕ))
    → n + sum_lengths ss < 2 ^ 64
    → add_lengths n ss ≡ n + sum_lengths ss
unfolding add_lengths sum_lengths
add_lengths_lem n [] h = omega arith
add_lengths_lem n (s ∷ ss) h =
    let e : (n + length s) % 2 ^ 64 ≡ n + length s = omega arith in
    ap (λ k. add_lengths k ss) e ∙ add_lengths_lem (n + length s) ss (omega arith) ∙ omega arith

-- What the loop writes behind the first text.
tail_text : List ℕ → List (List ℕ) → List ℕ
tail_text sep [] = []
tail_text sep (s ∷ ss) = sep ++ s ++ tail_text sep ss

length-tail_text :
    (sep : List ℕ) (ss : List (List ℕ))
    → length (tail_text sep ss) ≡ length sep * length ss + sum_lengths ss
unfolding tail_text sum_lengths
length-tail_text sep [] = omega arith
length-tail_text sep (s ∷ ss) =
    length-append (sep ++ s) (tail_text sep ss)
    ∙ ap (λ k. k + length (tail_text sep ss)) (length-append sep s)
    ∙ grind (arith, length-tail_text sep ss)

intercalate-cons :
    (sep s : List ℕ) (ss : List (List ℕ)) → intercalate sep (s ∷ ss) ≡ s ++ tail_text sep ss
unfolding intercalate tail_text
intercalate-cons sep s [] = sym (append-nil s)
intercalate-cons sep s (t ∷ ss) =
    ap (λ r. s ++ sep ++ r) (intercalate-cons sep t ss)
    ∙ append_assoc s sep (t ++ tail_text sep ss)
    ∙ ap (λ r. s ++ r) (sym (append_assoc sep t (tail_text sep ss)))

write_fits :
    (growth : ℕ → ℕ → ℕ) (s : List ℕ) (b : Builder)
    → length b.buf + length s ≤ b.capacity
    → write_string growth s b ≡ record b { buf = b.buf ++ s }
unfolding write_string
write_fits growth s b h =
    let l : leb (length b.buf + length s) b.capacity ≡ true = ground arith in rw l refl

write_loop_fits :
    (growth : ℕ → ℕ → ℕ) (sep : List ℕ) (ss : List (List ℕ)) (b : Builder)
    → length b.buf + length (tail_text sep ss) ≤ b.capacity
    → write_loop growth sep ss b ≡ record b { buf = b.buf ++ tail_text sep ss }
unfolding write_loop tail_text
write_loop_fits growth sep [] b h = ap (λ r. record b { buf = r }) (sym (append-nil b.buf))
write_loop_fits growth sep (s ∷ ss) b h =
    let rest = tail_text sep ss in
    let size : length (sep ++ s ++ rest) ≡ length sep + length s + length rest =
      length-append (sep ++ s) rest ∙ ap (λ k. k + length rest) (length-append sep s) in
    let b1 = record b { buf = b.buf ++ sep } in
    let b2 = record b { buf = b.buf ++ sep ++ s } in
    let size1 = length-append b.buf sep in
    let size2 = length-append (b.buf ++ sep) s in
    let e1 = write_fits growth sep b (omega (arith, h, size)) in
    let e2 = write_fits growth s b1 (omega (arith, h, size, size1)) in
    ap (λ v. write_loop growth sep ss (write_string growth s v)) e1
    ∙ ap (write_loop growth sep ss) e2
    ∙ write_loop_fits growth sep ss b2 (omega (arith, h, size, size1, size2))
    ∙ ap (λ r. record b { buf = r })
        (append_assoc (b.buf ++ sep) s rest
          ∙ append_assoc b.buf sep (s ++ rest)
          ∙ ap (λ r. b.buf ++ r) (sym (append_assoc sep s rest)))

-- The sum is the length of the text.
total :
    (s t : List ℕ) (ss : List (List ℕ)) (sep : List ℕ)
    → length (intercalate sep (s ∷ t ∷ ss)) < 2 ^ 63
    → add_lengths ((length sep * suc (length ss)) % 2 ^ 64) (s ∷ t ∷ ss)
      ≡ length (intercalate sep (s ∷ t ∷ ss))
unfolding sum_lengths
total s t ss sep h =
    let size : length (intercalate sep (s ∷ t ∷ ss)) ≡ length s + length (tail_text sep (t ∷ ss)) =
      ap length (intercalate-cons sep s (t ∷ ss)) ∙ length-append s (tail_text sep (t ∷ ss)) in
    let size' = length-tail_text sep (t ∷ ss) in
    let seps : (length sep * suc (length ss)) % 2 ^ 64 ≡ length sep * suc (length ss) =
      grind (arith, h, size, size') in
    ap (λ k. add_lengths k (s ∷ t ∷ ss)) seps
    ∙ add_lengths_lem (length sep * suc (length ss)) (s ∷ t ∷ ss) (grind (arith, h, size, size'))
    ∙ grind (arith, size, size')

-- Nothing is allocated once there is room for all.
written :
    (growth : ℕ → ℕ → ℕ) (s : List ℕ) (ss : List (List ℕ)) (sep : List ℕ) (b : Builder)
    → b.buf ≡ []
    → length (intercalate sep (s ∷ ss)) ≤ b.capacity
    → write_loop growth sep ss (write_string growth s b)
      ≡ record b { buf = intercalate sep (s ∷ ss) }
written growth s ss sep b e h =
    let size = ap length (intercalate-cons sep s ss) ∙ length-append s (tail_text sep ss) in
    let none_yet : length b.buf ≡ 0 = ap length e in
    let first = ap (λ r. r ++ s) e in
    let b1 = record b { buf = b.buf ++ s } in
    ap (write_loop growth sep ss) (write_fits growth s b (omega (arith, h, size, none_yet)))
    ∙ write_loop_fits growth sep ss b1 (omega (arith, h, size, ap length first))
    ∙ ap (λ r. record b { buf = r })
        (ap (λ r. r ++ tail_text sep ss) first ∙ sym (intercalate-cons sep s ss))

-- What `Grow` gives to a new builder.
grown : ℕ → Builder
grown n = if ltb 0 n then reserve n empty_builder else empty_builder

record Grown (n : ℕ) (b : Builder) : Type 0 where
  ran : grow n empty_builder ≡ some b
  fresh : b.buf ≡ []
  room : n ≤ b.capacity
  count : b.allocations ≡ (if ltb 0 n then 1 else 0)

grow-Grown : (n : ℕ) → n < 2 ^ 63 → Grown n (grown n)
unfolding grow grown reserve
grow-Grown n h = record {
  ran = ground arith;
  fresh = ground arith;
  room = ground arith;
  count = ground arith;
}

-- If the text is shorter than 2 ^ 63 bytes, Join gives the texts with the separator between them and does
-- not panic. It allocates once where there are two texts or more and not all is empty, and else never.
pub join-eq-intercalate :
    (growth : ℕ → ℕ → ℕ) (elems : List (List ℕ)) (sep : List ℕ)
    → length (intercalate sep elems) < 2 ^ 63
    → join growth elems sep
      ≡ some (
        intercalate sep elems,
        if ltb 1 (length elems) && ltb 0 (length (intercalate sep elems)) then 1 else 0,
      )
unfolding join intercalate finish
join-eq-intercalate growth [] sep h = refl
join-eq-intercalate growth (s ∷ []) sep h = refl
join-eq-intercalate growth (s ∷ t ∷ ss) sep h =
    let text = intercalate sep (s ∷ t ∷ ss) in
    let e = total s t ss sep h in
    let g = grow-Grown (length text) h in
    let b = grown (length text) in
    ap (finish growth s (t ∷ ss) sep) (ap (λ n. grow n empty_builder) e ∙ g.ran)
    ∙ ap (λ v. some (v.buf, v.allocations)) (written growth s (t ∷ ss) sep b g.fresh g.room)
    ∙ ap (λ k. some (text, k)) (g.count ∙ ground arith)
