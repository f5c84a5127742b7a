-- ===== src/Netpoll/Cache/Opens.antt =====
-- No descriptor of netpoll/netpoll0.go is handed out twice.
use srcrd.Prelude.{
  ℕ, ◌+◌, ◌≤◌, ◌<◌, ◌≡◌, ◌≢◌, sym, inl, inr, false, some, List, [], ◌∷◌, ◌==◌, if◌then◌else◌, arith,
  Bool-cases, ==_iff,
}
use srcrd.Netpoll.Cache.{
  PollCache, alloc, free, opened_desc, is_blocked, Opened, opened, failed, throws, nil_pointer,
}

-- How often a descriptor stands in a list.
unfoldable pub count : ℕ → List ℕ → ℕ
count a [] = 0
count a (x ∷ xs) = (if x == a then 1 else 0) + count a xs

-- The descriptors in `live` are in use. Each one that was made is free or in use, and not both.
pub record IsValid (live : List ℕ) (c : PollCache) : Type 0 where
  pub once : (a : ℕ) → count a c.first + count a live ≤ 1
  pub made : (a : ℕ) → 1 ≤ count a c.first + count a live → a < c.next
  pub kept : (a : ℕ) → a < c.next → 1 ≤ count a c.first + count a live
  pub unblocked :
      (a : ℕ)
      → count a live ≡ 0
      → (is_blocked (c.desc a).rg ≡ false) × (is_blocked (c.desc a).wg ≡ false)

-- A descriptor that was free, and the cache without it.
record Popped (live : List ℕ) (c : PollCache) (pd : ℕ) (c' : PollCache) : Type 0 where
  valid : IsValid (pd ∷ live) c'
  desc : c'.desc ≡ c.desc
  new : count pd live ≡ 0
  clear : (is_blocked (c.desc pd).rg ≡ false) × (is_blocked (c.desc pd).wg ≡ false)

record Allocated (pd_size : ℕ) (live : List ℕ) (c : PollCache) : Type 0 where
  pd : ℕ
  cache : PollCache
  ran : alloc pd_size c ≡ some (pd, cache)
  popped : Popped live c pd cache

-- What may come out of an open, with these descriptors in use.
abbrev pub OpensTo : List ℕ → ℕ → PollCache → Opened → Type 0
OpensTo live fd c (opened pd c') =
    (count pd live ≡ 0) × IsValid (pd ∷ live) c' × (c'.desc pd ≡ opened_desc fd (c.desc pd))
OpensTo live fd c (failed errno c') = (errno ≢ 0) × IsValid live c'
OpensTo live fd c throws = ⊥
OpensTo live fd c nil_pointer = ⊥

-- A descriptor that is given back is free, if nobody is blocked on it.
pub free-IsValid :
    (live : List ℕ) (pd : ℕ) (c : PollCache)
    → IsValid (pd ∷ live) c
    → is_blocked (c.desc pd).rg ≡ false
    → is_blocked (c.desc pd).wg ≡ false
    → IsValid live (free pd c)
unfolding free count
free-IsValid live pd c v r w = record {
  once = λ a. ground (arith, v.once a);
  made = λ a h. ground (arith, v.made a);
  kept = λ a h. ground (arith, v.kept a);
  unblocked = λ a h. elim (Bool-cases (pd == a)) [
    | inl e ↦ rw (sym ((==_iff pd a).0 e)) (r, w)
    | inr e ↦ v.unblocked a (ground arith)
  ];
}
