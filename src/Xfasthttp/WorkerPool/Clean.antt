-- ===== src/Xfasthttp/WorkerPool/Clean.antt =====
-- `clean` of xfasthttp/workerpool.go: which workers it tells to stop, and which stay.
use srcrd.Prelude.{
  ℕ, zero, suc, ◌+◌, ◌≤◌, ◌<◌, ◌≡◌, refl, sym, ap, ◌∙◌, Option, some, List, [], ◌∷◌, ◌++◌, length,
  get_elem?, take, drop, take-append-drop, arith,
}
use srcrd.Xfasthttp.WorkerPool.{WorkerChan, WorkerPool, search_loop, cut_at, critical_time, clean}
use srcrd.Xfasthttp.WorkerPool.Search.{All, IsSorted, search_returns, search-Splits}

All-get_elem? :
    (P : WorkerChan → Type 0) (ws : List WorkerChan)
    → ((i : ℕ) (w : WorkerChan) → get_elem? ws i ≡ some w → P w)
    → All P ws
All-get_elem? P [] h = tt
All-get_elem? P (w ∷ ws) h = (h 0 w refl, All-get_elem? P ws (λ i v e. h (suc i) v e))

take_elem :
    (k : ℕ) (ws : List WorkerChan) (i : ℕ) (w : WorkerChan)
    → get_elem? (take k ws) i ≡ some w
    → (i < k) × (get_elem? ws i ≡ some w)
take_elem zero ws i w e = absurd cc
take_elem (suc k) [] i w e = absurd cc
take_elem (suc k) (v ∷ ws) zero w e = (omega arith, e)
take_elem (suc k) (v ∷ ws) (suc i) w e = let t = take_elem k ws i w e in (omega (arith, t.0), t.1)

drop_elem :
    (k i j : ℕ) (ws : List WorkerChan) → j ≡ k + i → get_elem? (drop k ws) i ≡ get_elem? ws j
drop_elem zero i j ws h = ap (get_elem? ws) {x = i} {y = j} (omega arith)
drop_elem (suc k) i j [] h = refl
drop_elem (suc k) i zero (v ∷ ws) h = absurd (omega arith)
drop_elem (suc k) i (suc j) (v ∷ ws) h = drop_elem k i j ws (omega arith)

-- What `clean` did: it cut the ready workers in two.
pub record Cleaned (wp : WorkerPool) (out : Option (List WorkerChan × WorkerPool)) : Type 0 where
  pub old : List WorkerChan
  pub kept : List WorkerChan
  pub returns : out ≡ some (old, record wp { ready = kept })
  pub cut : old ++ kept ≡ wp.ready

clean_lem :
    (now : ℕ) (wp : WorkerPool) (k : ℕ)
    → search_loop wp.ready (critical_time now wp) (suc (length wp.ready)) 0 (length wp.ready)
      ≡ some k
    → clean now wp ≡ some (take k wp.ready, record wp { ready = drop k wp.ready })
unfolding clean cut_at
clean_lem now wp k e = ap (λ o. cut_at o wp) e

pub clean-Cleaned : (now : ℕ) (wp : WorkerPool) → Cleaned wp (clean now wp)
clean-Cleaned now wp =
    let (k, e, _) =
      search_returns wp.ready (critical_time now wp) (suc (length wp.ready)) 0 (length wp.ready)
        (omega arith) (omega arith) (omega arith) in
    record {
      old = take k wp.ready;
      kept = drop k wp.ready;
      returns = clean_lem now wp k e;
      cut = take-append-drop k wp.ready;
    }

-- If the workers are in the order of their last use, `clean` ends without a read out of the slice; the
-- workers that it tells to stop and those that stay ready are, in order, the ready workers before,
-- and it tells exactly those to stop that were last used before the critical time.
pub clean-IsSorted :
    (now : ℕ) (wp : WorkerPool)
    → IsSorted wp.ready
    → let critical = critical_time now wp in
      (c : Cleaned wp (clean now wp)) × All (λ w. w.last_use_time < critical) c.old
      × All (λ w. critical ≤ w.last_use_time) c.kept
clean-IsSorted now wp o =
    let (k, e, _) =
      search_returns wp.ready (critical_time now wp) (suc (length wp.ready)) 0 (length wp.ready)
        (omega arith) (omega arith) (omega arith) in
    let s = search-Splits wp.ready (critical_time now wp) o k e in
    (
      record {
        old = take k wp.ready;
        kept = drop k wp.ready;
        returns = clean_lem now wp k e;
        cut = take-append-drop k wp.ready;
      },
      All-get_elem? _ (take k wp.ready)
          (λ i w g. let t = take_elem k wp.ready i w g in s.before i w t.0 t.1),
      All-get_elem? _ (drop k wp.ready) (λ i w g.
          s.after (k + i) w (omega arith) (sym (drop_elem k i (k + i) wp.ready refl) ∙ g)),
    )
