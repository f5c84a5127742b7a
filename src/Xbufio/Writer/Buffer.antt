-- ===== src/Xbufio/Writer/Buffer.antt =====
-- Copies into the buffer and within it, for xbufio/bufio_writer.go.
use srcrd.Prelude.{
  ℕ, zero, suc, ◌+◌, ◌-◌, ◌≤◌, ◌≡◌, refl, sym, ap, ◌∙◌, List, [], ◌∷◌, ◌++◌, append_assoc, length,
  take, drop, length-append, length-take, length-drop, arith,
}
use srcrd.Xbufio.Writer.{copied, copy_at, shift}

take_exact : (xs ys : List ℕ) → take (length xs) (xs ++ ys) ≡ xs
take_exact [] ys = refl
take_exact (x ∷ xs) ys = ap (λ q. x ∷ q) (take_exact xs ys)

pub take_prefix : (n : ℕ) (xs ys : List ℕ) → n ≡ length xs → take n (xs ++ ys) ≡ xs
take_prefix n xs ys e = rw e (take_exact xs ys)

pub take_all : (n : ℕ) (xs : List ℕ) → length xs ≤ n → take n xs ≡ xs
take_all zero [] h = refl
take_all (suc n) [] h = refl
take_all zero (x ∷ xs) h = absurd (omega arith)
take_all (suc n) (x ∷ xs) h = ap (λ q. x ∷ q) (take_all n xs (omega arith))

pub drop_all : (n : ℕ) (xs : List ℕ) → length xs ≤ n → drop n xs ≡ []
drop_all zero [] h = refl
drop_all (suc n) [] h = refl
drop_all zero (x ∷ xs) h = absurd (omega arith)
drop_all (suc n) (x ∷ xs) h = drop_all n xs (omega arith)

pub take-add : (a b c : ℕ) (xs : List ℕ) → c ≡ a + b → take a xs ++ take b (drop a xs) ≡ take c xs
take-add zero b c xs e = ap (λ k. take k xs) {x = b} {y = c} (omega arith)
take-add (suc a) b zero xs e = absurd (omega arith)
take-add (suc a) zero (suc c) [] e = refl
take-add (suc a) (suc b) (suc c) [] e = refl
take-add (suc a) b (suc c) (x ∷ xs) e = ap (λ q. x ∷ q) (take-add a b c xs (omega arith))

pub drop-drop : (a b c : ℕ) (xs : List ℕ) → c ≡ a + b → drop b (drop a xs) ≡ drop c xs
drop-drop zero b c xs e = ap (λ k. drop k xs) {x = b} {y = c} (omega arith)
drop-drop (suc a) b zero xs e = absurd (omega arith)
drop-drop (suc a) zero (suc c) [] e = refl
drop-drop (suc a) (suc b) (suc c) [] e = refl
drop-drop (suc a) b (suc c) (x ∷ xs) e = drop-drop a b c xs (omega arith)

drop-take : (a b c : ℕ) (xs : List ℕ) → c ≡ b - a → drop a (take b xs) ≡ take c (drop a xs)
drop-take zero b c xs e = ap (λ k. take k xs) {x = b} {y = c} (omega arith)
drop-take (suc a) zero zero [] e = refl
drop-take (suc a) zero zero (x ∷ xs) e = refl
drop-take (suc a) zero (suc c) xs e = absurd (omega arith)
drop-take (suc a) (suc b) zero [] e = refl
drop-take (suc a) (suc b) (suc c) [] e = refl
drop-take (suc a) (suc b) c (x ∷ xs) e = drop-take a b c xs (omega arith)

pub length-copy_at :
    (buf : List ℕ) (n : ℕ) (p : List ℕ) → n ≤ length buf → length (copy_at buf n p) ≡ length buf
unfolding copy_at
length-copy_at buf n p h =
    let m = copied buf n p in
    omega (
      arith,
      length-append (take n buf) (take m p ++ drop (n + m) buf),
      length-append (take m p) (drop (n + m) buf),
      length-take n buf,
      length-take m p,
      length-drop (n + m) buf,
    )

pub take-copy_at :
    (buf : List ℕ) (n : ℕ) (p : List ℕ)
    → n ≤ length buf
    → take (n + copied buf n p) (copy_at buf n p) ≡ take n buf ++ take (copied buf n p) p
unfolding copy_at
take-copy_at buf n p h =
    let m = copied buf n p in
    ap (take (n + m)) (sym (append_assoc (take n buf) (take m p) (drop (n + m) buf)))
    ∙ take_prefix (n + m) (take n buf ++ take m p) (drop (n + m) buf)
        (omega (arith, length-append (take n buf) (take m p), length-take n buf, length-take m p))

pub length-shift : (n m : ℕ) (buf : List ℕ) → m ≤ length buf → length (shift n m buf) ≡ length buf
unfolding shift
length-shift n m buf h = omega (
  arith,
  length-append (take (m - n) (drop n buf)) (drop (m - n) buf),
  length-take (m - n) (drop n buf),
  length-drop n buf,
  length-drop (m - n) buf,
)

pub take-shift :
    (n m : ℕ) (buf : List ℕ) → m ≤ length buf → take (m - n) (shift n m buf) ≡ drop n (take m buf)
unfolding shift
take-shift n m buf h =
    take_prefix (m - n) (take (m - n) (drop n buf)) (drop (m - n) buf)
      (omega (arith, length-take (m - n) (drop n buf), length-drop n buf))
    ∙ sym (drop-take n m (m - n) buf refl)
