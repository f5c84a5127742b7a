-- ===== src/Xsync/Pool/Steal.antt =====
-- The loops of `getSlow` of xsync/pool.go take one value from the shared parts, or none.
use native.Mathlib.Nat.{mod-lt}
use srcrd.Prelude.{
  ℕ, zero, suc, ◌+◌, ◌%◌, ◌≤◌, ◌<◌, ◌≡◌, refl, ◌∙◌, List, length, set, length-set, arith, inl, inr,
  ◌⊎◌,
}
use srcrd.Xsync.PoolQueue.{Value, nil, item}
use srcrd.Xsync.PoolChain
use srcrd.Xsync.PoolChain.{PoolChain}
use srcrd.Xsync.PoolChain.Refine.{pop_tail_oldest}
use srcrd.Xsync.Pool.{PoolLocal, index_local, value_or_nil, steal}
use srcrd.Xsync.Pool.Amount.{
  one, amount_local, amount_array, AreChains, amount_array-set, AreChains-set, AreChains-index,
  count-pop_tail,
}

-- A value was taken out of the parts, or none was.
pub record Taken (ls : List PoolLocal) (out : Value × List PoolLocal) : Type 0 where
  pub chains : AreChains out.1
  pub same_length : length out.1 ≡ length ls
  pub balance : (a : ℕ) → amount_array a out.1 + one a out.0 ≡ amount_array a ls

-- The parts after one `popTail` on the part `i`.
abbrev after_pop : ℕ → List PoolLocal → List PoolLocal
after_pop i ls =
    set ls i
      (record (index_local ls i) { shared = (PoolChain.pop_tail (index_local ls i).shared).1 })

pop_once :
    (i : ℕ) (ls : List PoolLocal)
    → i < length ls
    → AreChains ls
    → Taken ls (value_or_nil (PoolChain.pop_tail (index_local ls i).shared).0, after_pop i ls)
unfolding amount_local
pop_once i ls h c =
    let chain = AreChains-index i ls c in
    record {
      chains = AreChains-set i ls _ c (pop_tail_oldest _ chain).0;
      same_length = length-set ls i _;
      balance = λ a. omega (
        arith,
        amount_array-set a i ls
            (record (index_local ls i) {
              shared = (PoolChain.pop_tail (index_local ls i).shared).1;
            })
            h,
        count-pop_tail a (index_local ls i).shared chain,
      );
    }

pub value-cases : (v : Value) → (v ≡ nil) ⊎ ((x : ℕ) × (v ≡ item x))
value-cases nil = inl refl
value-cases (item x) = inr (x, refl)

steal_found :
    (n start size x : ℕ) (ls : List PoolLocal)
    → value_or_nil (PoolChain.pop_tail (index_local ls (start % size)).shared).0 ≡ item x
    → steal (suc n) start size ls ≡ (item x, after_pop (start % size) ls)
unfolding steal
steal_found n start size x ls e = ground arith

steal_next :
    (n start size : ℕ) (ls : List PoolLocal)
    → value_or_nil (PoolChain.pop_tail (index_local ls (start % size)).shared).0 ≡ nil
    → steal (suc n) start size ls ≡ steal n (start + 1) size (after_pop (start % size) ls)
unfolding steal
steal_next n start size ls e = ground arith

pub steal-Taken :
    (n start size : ℕ) (ls : List PoolLocal)
    → 0 < size
    → size ≤ length ls
    → AreChains ls
    → Taken ls (steal n start size ls)
unfolding steal
steal-Taken zero start size ls p h c = record {
  chains = c;
  same_length = refl;
  balance = λ a. omega arith;
}
steal-Taken (suc n) start size ls p h c =
    let once = pop_once (start % size) ls (omega (arith, mod-lt start p)) c in
    elim (value-cases
      (value_or_nil (PoolChain.pop_tail (index_local ls (start % size)).shared).0)) [
        | inr (x, e) ↦ rw (steal_found n start size x ls e) (rw e at once)
        | inl e ↦
            let rest =
              steal-Taken n (start + 1) size (after_pop (start % size) ls) p (rw once.same_length h)
                once.chains in
            rw (steal_next n start size ls e) (record {
              chains = rest.chains;
              same_length = rest.same_length ∙ once.same_length;
              balance = λ a. omega (arith, rest.balance a, (rw e at once).balance a);
            })
      ]
