-- ===== src/Xsync/Pool/Cleanup.antt =====
-- xsync/pool_cleanup.go: a cleanup turns every local part into the victim and drops the victims of
-- before, so that a pool that is not used is empty after two.
use srcrd.Prelude.{
  ℕ, zero, suc, ◌<◌, ◌≡◌, refl, ◌∙◌, sym, ap, List, [], ◌∷◌, ◌++◌, replicate, arith, Bool, false,
  not, ◌==◌, ◌||◌, if◌then◌else◌, Bool-cases, inl, inr,
}
use srcrd.Threads.{assign}
use srcrd.Xsync.Pool.{
  PoolLocal, Pool, World, fresh, is_none, pin, pin_slow, pin_world, drop_victims, retire,
  pool_cleanup,
}
use srcrd.Xsync.Pool.Amount.{amount, amount_array}

unfoldable pub contains : ℕ → List ℕ → Bool
contains j [] = false
contains j (i ∷ is) = i == j || contains j is

abbrev pub IsUnique : List ℕ → Type 0
IsUnique [] = Unit
IsUnique (i ∷ is) = (contains i is ≡ false) × IsUnique is

-- `allPools` has each pool with a local part once, and `oldPools` every pool with a victim.
pub record IsTracked (w : World) : Type 0 where
  pub unique : IsUnique w.all_pools
  pub all : (id : ℕ) → contains id w.all_pools ≡ not (is_none (w.pool id).local)
  pub old : (id : ℕ) → contains id w.old_pools ≡ false → (w.pool id).victim ≡ []

drop_victims_lem :
    (is : List ℕ) (f : ℕ → Pool) (j : ℕ)
    → drop_victims is f j
      ≡ (if contains j is then record (f j) { victim = []; victim_size = 0 } else f j)
unfolding drop_victims contains
drop_victims_lem [] f j = refl
drop_victims_lem (i ∷ is) f j =
    drop_victims_lem is (assign f i (record (f i) { victim = []; victim_size = 0 })) j
    ∙ ground arith

-- What the second loop does to one pool.
abbrev pub retired : Pool → Pool
retired p = record p { local = []; local_size = 0; victim = p.local; victim_size = p.local_size }

retire_lem :
    (is : List ℕ) (f : ℕ → Pool) (j : ℕ)
    → IsUnique is
    → retire is f j ≡ (if contains j is then retired (f j) else f j)
unfolding retire contains
retire_lem [] f j u = refl
retire_lem (i ∷ is) f j u = retire_lem is (assign f i (retired (f i))) j u.1 ∙ ground (arith, u.0)

none_is : (ls : List PoolLocal) → not (is_none ls) ≡ false → ls ≡ []
none_is [] e = refl
none_is (l ∷ ls) e = cc

-- If the records of which pools hold what are right, a cleanup leaves every pool with no local part,
-- and with its local part of before as the victim.
pub pool_cleanup_lem :
    (w : World)
    → IsTracked w
    → (id : ℕ)
    → ((pool_cleanup w).pool id).local ≡ []
      × (((pool_cleanup w).pool id).victim ≡ (w.pool id).local)
unfolding pool_cleanup
pool_cleanup_lem w t id = elim (Bool-cases (contains id w.all_pools)) [
  | inl e ↦
      rw (retire_lem w.all_pools (drop_victims w.old_pools w.pool) id t.unique)
        (ground (arith, drop_victims_lem w.old_pools w.pool id))
  | inr e ↦ rw (retire_lem w.all_pools (drop_victims w.old_pools w.pool) id t.unique) (
      ground (
        arith,
        drop_victims_lem w.old_pools w.pool id,
        none_is (w.pool id).local (sym (t.all id) ∙ e),
        t.old id,
      ))
]

cleanup_lists :
    (w : World)
    → IsUnique (pool_cleanup w).all_pools
      × ((id : ℕ) → contains id (pool_cleanup w).all_pools ≡ false)
unfolding pool_cleanup contains
cleanup_lists w = (tt, λ id. refl)

cleanup_old :
    (w : World) (id : ℕ)
    → contains id (pool_cleanup w).old_pools ≡ false
    → contains id w.all_pools ≡ false
unfolding pool_cleanup
cleanup_old w id e = e

-- If the records of which pools hold what are right, a cleanup keeps them right.
pub pool_cleanup-IsTracked : (w : World) → IsTracked w → IsTracked (pool_cleanup w)
unfolding contains
pool_cleanup-IsTracked w t = record {
  unique = (cleanup_lists w).0;
  all =
      λ id. (cleanup_lists w).1 id ∙ ap (λ ls. not (is_none ls)) (sym (pool_cleanup_lem w t id).0);
  old = λ id e.
      (pool_cleanup_lem w t id).1 ∙ none_is (w.pool id).local (sym (t.all id) ∙ cleanup_old w id e);
}

contains-append : (j i : ℕ) (is : List ℕ) → contains j (is ++ (i ∷ [])) ≡ (contains j is || i == j)
unfolding contains
contains-append j i [] = ground arith
contains-append j i (k ∷ is) = ground (arith, contains-append j i is)

append-IsUnique :
    (i : ℕ) (is : List ℕ) → IsUnique is → contains i is ≡ false → IsUnique (is ++ (i ∷ []))
unfolding contains
append-IsUnique i [] u e = (refl, tt)
append-IsUnique i (k ∷ is) u e =
    ground (arith, append-IsUnique i is u.1, contains-append k i is, u.0)

fresh-some : (n : ℕ) → 0 < n → is_none (replicate n fresh) ≡ false
fresh-some zero h = absurd (omega arith)
fresh-some (suc n) h = refl

-- If the records of which pools hold what are right, pinning to a processor below GOMAXPROCS keeps
-- them right: the pool enters `allPools` exactly when it gets its first local part.
pub pin_world-IsTracked :
    (id pid procs : ℕ) (w : World)
    → pid < procs
    → IsTracked w
    → IsTracked (pin_world id pid procs w)
unfolding pin_world pin pin_slow
pin_world-IsTracked id pid procs w h t = record {
  unique = ground (arith, t.unique, t.all id, append-IsUnique id w.all_pools);
  all = λ j.
      ground (
        arith,
        t.all j,
        t.all id,
        contains-append j id w.all_pools,
        fresh-some procs (omega arith),
      );
  old = λ j e. ground (arith, t.old j);
}

-- If the records of which pools hold what are right, a pool that nobody uses between two cleanups is
-- empty after them.
pub pool_cleanup_twice :
    (w : World) → IsTracked w → (id a : ℕ) → amount a ((pool_cleanup (pool_cleanup w)).pool id) ≡ 0
unfolding amount amount_array
pool_cleanup_twice w t id a = ground (
  arith,
  pool_cleanup_lem w t id,
  pool_cleanup_lem (pool_cleanup w) (pool_cleanup-IsTracked w t) id,
)
