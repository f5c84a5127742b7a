-- ===== src/Xsync/Pool/Amount.antt =====
-- How often an item lies in a pool of xsync/pool.go.
use srcrd.Prelude.{
  ℕ, zero, suc, ◌+◌, ◌<◌, ◌≡◌, refl, ◌∙◌, ap, List, [], ◌∷◌, ◌++◌, length, set, replicate, arith,
  Option, ◌==◌, if◌then◌else◌, Option-cases, inl, inr,
}
use srcrd.Xsync.PoolQueue.{Value, nil, item}
use srcrd.Xsync.PoolQueue.Refine.{spec_pop_head, spec_pop_tail, unsnoc}
use srcrd.Xsync.PoolChain
use srcrd.Xsync.PoolChain.{PoolChain}
use srcrd.Xsync.PoolChain.Rings.{IsChain, values}
use srcrd.Xsync.PoolChain.Push.{push_head_adds}
use srcrd.Xsync.PoolChain.Refine.{
  pop_head_newest, pop_tail_oldest, unsnoc-some, unsnoc-none, spec_head_none, spec_head_some,
}
use srcrd.Xsync.Pool.{PoolLocal, Pool, fresh, index_local, value_or_nil}

-- 1 for the item `a`, and 0 for nil and for other items.
abbrev pub one : ℕ → Value → ℕ
one a nil = 0
one a (item x) = if a == x then 1 else 0

unfoldable pub count : ℕ → List Value → ℕ
count a [] = 0
count a (x ∷ xs) = one a x + count a xs

pub count-append : (a : ℕ) (xs ys : List Value) → count a (xs ++ ys) ≡ count a xs + count a ys
unfolding count
count-append a [] ys = omega arith
count-append a (x ∷ xs) ys = omega (arith, count-append a xs ys)

unfoldable pub amount_local : ℕ → PoolLocal → ℕ
amount_local a l = one a l.private + count a (values l.shared)

unfoldable pub amount_array : ℕ → List PoolLocal → ℕ
amount_array a [] = 0
amount_array a (l ∷ ls) = amount_local a l + amount_array a ls

unfoldable pub amount : ℕ → Pool → ℕ
amount a p = amount_array a p.local + amount_array a p.victim

abbrev pub AreChains : List PoolLocal → Type 0
AreChains [] = Unit
AreChains (l ∷ ls) = IsChain l.shared × AreChains ls

-- A write to one part changes the amount by what that part gains or loses.
pub amount_array-set :
    (a i : ℕ) (ls : List PoolLocal) (l : PoolLocal)
    → i < length ls
    → amount_array a (set ls i l) + amount_local a (index_local ls i)
      ≡ amount_array a ls + amount_local a l
unfolding amount_array
amount_array-set a i [] l h = absurd (omega arith)
amount_array-set a zero (k ∷ ls) l h = omega arith
amount_array-set a (suc i) (k ∷ ls) l h = omega (arith, amount_array-set a i ls l (omega arith))

pub AreChains-set :
    (i : ℕ) (ls : List PoolLocal) (l : PoolLocal)
    → AreChains ls
    → IsChain l.shared
    → AreChains (set ls i l)
AreChains-set i [] l h c = tt
AreChains-set zero (k ∷ ls) l h c = (c, h.1)
AreChains-set (suc i) (k ∷ ls) l h c = (h.0, AreChains-set i ls l h.1 c)

pub AreChains-index :
    (i : ℕ) (ls : List PoolLocal) → AreChains ls → IsChain (index_local ls i).shared
AreChains-index i [] h = tt
AreChains-index zero (k ∷ ls) h = h.0
AreChains-index (suc i) (k ∷ ls) h = AreChains-index i ls h.1

pub fresh-AreChains : (n : ℕ) → AreChains (replicate n fresh)
fresh-AreChains zero = tt
fresh-AreChains (suc n) = (tt, fresh-AreChains n)

pub amount_fresh : (a n : ℕ) → amount_array a (replicate n fresh) ≡ 0
unfolding amount_array amount_local count values
amount_fresh a zero = refl
amount_fresh a (suc n) = omega (arith, amount_fresh a n)

-- A push adds the value, and a pop takes away what it returns.
pub count-push :
    (a : ℕ) (x : Value) (c : PoolChain)
    → IsChain c
    → count a (values (PoolChain.push_head x c)) ≡ count a (values c) + one a x
unfolding count
count-push a x c h =
    ap (count a) (push_head_adds x c h).1 ∙ count-append a (values c) (x ∷ []) ∙ omega arith

spec_tail_count :
    (a : ℕ) (q rest : List Value) (out : Option Value)
    → (out, rest) ≡ spec_pop_tail q
    → count a rest + one a (value_or_nil out) ≡ count a q
unfolding spec_pop_tail count
spec_tail_count a [] rest out e = ground arith
spec_tail_count a (x ∷ q) rest out e = ground arith

pub count-pop_tail :
    (a : ℕ) (c : PoolChain)
    → IsChain c
    → count a (values (PoolChain.pop_tail c).1) + one a (value_or_nil (PoolChain.pop_tail c).0)
      ≡ count a (values c)
count-pop_tail a c h = spec_tail_count a (values c) _ _ (pop_tail_oldest c h).1

spec_head_count :
    (a : ℕ) (q rest : List Value) (out : Option Value)
    → (out, rest) ≡ spec_pop_head q
    → count a rest + one a (value_or_nil out) ≡ count a q
unfolding spec_pop_head count
spec_head_count a q rest out e = elim (Option-cases (unsnoc q)) [
  | inl n ↦ ground (arith, spec_head_none q n, unsnoc-none q n)
  | inr ((r, x), s) ↦
      ground (arith, spec_head_some q r x s, unsnoc-some q r x s, count-append a r (x ∷ []))
]

pub count-pop_head :
    (a : ℕ) (c : PoolChain)
    → IsChain c
    → count a (values (PoolChain.pop_head c).1) + one a (value_or_nil (PoolChain.pop_head c).0)
      ≡ count a (values c)
count-pop_head a c h = spec_head_count a (values c) _ _ (pop_head_newest c h).1
