-- ===== src/Xsync/Pool/Conserve.antt =====
-- `Put` of xsync/pool.go adds its item once.
use srcrd.Prelude.{
  ℕ, ◌+◌, ◌≤◌, ◌<◌, ◌≡◌, refl, ◌∙◌, sym, ap, [], length, set, length-replicate, length-set, arith,
  true, false, inl, inr, ◌⊎◌, Bool-cases,
}
use srcrd.Xsync.PoolQueue.{Value, nil, item}
use srcrd.Xsync.PoolChain
use srcrd.Xsync.PoolChain.{PoolChain}
use srcrd.Xsync.PoolChain.Rings.{IsChain}
use srcrd.Xsync.PoolChain.Push.{push_head_adds}
use srcrd.Xsync.Pool.{PoolLocal, Pool, fresh, index_local, is_nil, pin, pin_slow, put_local, put}
use srcrd.Xsync.Pool.Amount.{
  one, amount_local, amount_array, amount, AreChains, amount_array-set, AreChains-set,
  AreChains-index, fresh-AreChains, amount_fresh, count-push,
}

pub record IsPool (p : Pool) : Type 0 where
  pub local_whole : p.local_size ≡ length p.local
  pub victim_whole : p.victim_size ≤ length p.victim
  pub local_chains : AreChains p.local
  pub victim_chains : AreChains p.victim

-- A value left the pool, or none did.
pub record Lost (p : Pool) (out : Value × Pool) : Type 0 where
  pub valid : IsPool out.1
  pub balance : (a : ℕ) → amount a out.1 + one a out.0 ≡ amount a p

-- The array is there for the processor, or there is none yet.
abbrev pub IsPinnable : ℕ → Pool → Type 0
IsPinnable pid p = (pid < p.local_size) ⊎ (p.local ≡ [])

pub record Pinned (pid : ℕ) (p q : Pool) : Type 0 where
  pub valid : IsPool q
  pub inside : pid < q.local_size
  pub same : (a : ℕ) → amount a q ≡ amount a p

pin_fits : (pid procs : ℕ) (p : Pool) → pid < p.local_size → pin pid procs p ≡ p
unfolding pin
pin_fits pid procs p h = ground arith

pin_new : (pid procs : ℕ) (p : Pool) → ¬ (pid < p.local_size) → pin pid procs p ≡ pin_slow procs p
unfolding pin
pin_new pid procs p h = ground arith

pub pin-Pinned :
    (pid procs : ℕ) (p : Pool)
    → pid < procs
    → IsPinnable pid p
    → IsPool p
    → Pinned pid p (pin pid procs p)
unfolding pin_slow amount amount_array
pin-Pinned pid procs p h (inl fits) v =
    rw (pin_fits pid procs p fits) (record { valid = v; inside = fits; same = λ a. refl })
pin-Pinned pid procs p h (inr none_yet) v =
    rw (pin_new pid procs p (λ l. omega (arith, l, v.local_whole, ap length none_yet))) (record {
      valid = record {
        local_whole = sym (length-replicate procs fresh);
        victim_whole = v.victim_whole;
        local_chains = fresh-AreChains procs;
        victim_chains = v.victim_chains;
      };
      inside = h;
      same = λ a. ground (arith, amount_fresh a procs, none_yet);
    })

-- One part is written.
pub set-IsPool :
    (p : Pool) (i : ℕ) (l : PoolLocal)
    → IsPool p
    → IsChain l.shared
    → IsPool (record p { local = set p.local i l })
set-IsPool p i l v c = record {
  local_whole = v.local_whole ∙ sym (length-set p.local i l);
  victim_whole = v.victim_whole;
  local_chains = AreChains-set i p.local l v.local_chains c;
  victim_chains = v.victim_chains;
}

put_private :
    (x : Value) (l : PoolLocal) → is_nil l.private ≡ true → put_local x l ≡ record l { private = x }
unfolding put_local
put_private x l e = ground arith

put_shared :
    (x : Value) (l : PoolLocal)
    → is_nil l.private ≡ false
    → put_local x l ≡ record l { shared = PoolChain.push_head x l.shared }
unfolding put_local
put_shared x l e = ground arith

pub one-nil : (a : ℕ) (x : Value) → is_nil x ≡ true → one a x ≡ 0
one-nil a nil e = refl
one-nil a (item x) e = cc

put_local_balance :
    (x : Value) (l : PoolLocal)
    → IsChain l.shared
    → IsChain (put_local x l).shared
      × ((a : ℕ) → amount_local a (put_local x l) ≡ amount_local a l + one a x)
unfolding amount_local
put_local_balance x l c = elim (Bool-cases (is_nil l.private)) [
  | inl e ↦ rw (put_private x l e) (c, λ a. omega (arith, one-nil a l.private e))
  | inr e ↦
      rw (put_shared x l e)
        ((push_head_adds x l.shared c).0, λ a. omega (arith, count-push a x l.shared c))
]

-- On a well-formed pool that has an array for the processor or none yet, `Put` adds the item once and
-- takes nothing away; the pool stays well-formed.
pub put_adds :
    (pid procs x : ℕ) (p : Pool)
    → pid < procs
    → IsPinnable pid p
    → IsPool p
    → IsPool (put pid procs (item x) p)
      × ((a : ℕ) → amount a (put pid procs (item x) p) ≡ amount a p + one a (item x))
unfolding put amount
put_adds pid procs x p h f v = (
  set-IsPool q pid _ w.valid l.0,
  λ a. omega (
    arith,
    l.1 a,
    w.same a,
    amount_array-set a pid q.local (put_local (item x) (index_local q.local pid)) inside,
  ),
)
  where
    q : Pool
    q = pin pid procs p

    w : Pinned pid p (pin pid procs p)
    w = pin-Pinned pid procs p h f v

    inside : pid < length (pin pid procs p).local
    inside = omega (arith, w.inside, w.valid.local_whole)

    l :
        IsChain (put_local (item x) (index_local (pin pid procs p).local pid)).shared
        × ((a : ℕ)
            → amount_local a (put_local (item x) (index_local (pin pid procs p).local pid))
              ≡ amount_local a (index_local (pin pid procs p).local pid) + one a (item x))
    l =
        put_local_balance (item x) _
          (AreChains-index pid (pin pid procs p).local w.valid.local_chains)
