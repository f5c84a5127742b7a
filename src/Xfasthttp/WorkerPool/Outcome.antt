-- ===== src/Xfasthttp/WorkerPool/Outcome.antt =====
-- What the methods of xfasthttp/workerpool.go did, from what they return.
use srcrd.Prelude.{
  ℕ, ◌+◌, ◌<◌, ◌≡◌, sym, ◌∙◌, true, false, Option, some, Option-cases, List, [], ◌∷◌, ◌++◌, arith,
  inl, inr,
}
use srcrd.Xfasthttp.WorkerPool.{
  WorkerChan, WorkerPool, stop, clean, pop_ready, reuse, create, refuse, get_ch, release,
}
use srcrd.Xfasthttp.WorkerPool.Clean.{clean-Cleaned}

pop_ready-some :
    (ws rest : List WorkerChan) (l : WorkerChan)
    → pop_ready ws ≡ some (l, rest)
    → ws ≡ rest ++ (l ∷ [])
unfolding pop_ready
pop_ready-some [] rest l e = absurd cc
pop_ready-some (w ∷ []) rest l e = ground arith
pop_ready-some (w ∷ x ∷ ws) rest l e = elim (Option-cases (pop_ready (x ∷ ws))) [
  | inl h ↦ absurd (ground arith)
  | inr ((l', r), h) ↦ ground (arith, pop_ready-some (x ∷ ws) r l' h)
]

pub get_ch_reuse :
    (wp wp' : WorkerPool) (ch : WorkerChan)
    → get_ch wp ≡ (reuse ch, wp')
    → (rest : List WorkerChan) × (wp.ready ≡ rest ++ (ch ∷ [])) × (wp' ≡ record wp { ready = rest })
unfolding get_ch
get_ch_reuse wp wp' ch e = elim (Option-cases (pop_ready wp.ready)) [
  | inl h ↦ absurd (ground arith)
  | inr ((l, r), h) ↦ (r, ground (arith, pop_ready-some wp.ready r l h), ground arith)
]

pub get_ch_create :
    (wp wp' : WorkerPool)
    → get_ch wp ≡ (create, wp')
    → (wp.workers_count < wp.max_workers_count)
      × (wp' ≡ record wp { workers_count = wp.workers_count + 1 })
unfolding get_ch
get_ch_create wp wp' e = elim (Option-cases (pop_ready wp.ready)) [
  | inl h ↦ ground arith
  | inr ((l, r), h) ↦ absurd (ground arith)
]

pub get_ch_refuse : (wp wp' : WorkerPool) → get_ch wp ≡ (refuse, wp') → wp' ≡ wp
unfolding get_ch
get_ch_refuse wp wp' e = elim (Option-cases (pop_ready wp.ready)) [
  | inl h ↦ ground arith
  | inr ((l, r), h) ↦ absurd (ground arith)
]

pub release_true :
    (w now : ℕ) (wp wp' : WorkerPool)
    → release w now wp ≡ (true, wp')
    → (wp.must_stop ≡ false)
      × (wp' ≡ record wp { ready = wp.ready ++ (record { id = w; last_use_time = now } ∷ []) })
unfolding release
release_true w now wp wp' e = ground arith

pub release_false : (w now : ℕ) (wp wp' : WorkerPool) → release w now wp ≡ (false, wp') → wp' ≡ wp
unfolding release
release_false w now wp wp' e = ground arith

pub stop_lem :
    (wp wp' : WorkerPool) (old : List WorkerChan)
    → stop wp ≡ some (old, wp')
    → (old ≡ wp.ready) × (wp' ≡ record wp { started = false; ready = []; must_stop = true })
unfolding stop
stop_lem wp wp' old e = ground arith

pub clean_cut :
    (now : ℕ) (wp wp' : WorkerPool) (old : List WorkerChan)
    → clean now wp ≡ some (old, wp')
    → (kept : List WorkerChan) × (old ++ kept ≡ wp.ready) × (wp' ≡ record wp { ready = kept })
clean_cut now wp wp' old e =
    let c = clean-Cleaned now wp in
    let q : ◌≡◌ {A = Option (List WorkerChan × WorkerPool)}
        (some (c.old, record wp { ready = c.kept })) (some (old, wp')) =
      sym c.returns ∙ e in
    (c.kept, ground (arith, c.cut), ground arith)
