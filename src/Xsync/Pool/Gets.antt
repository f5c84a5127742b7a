-- ===== src/Xsync/Pool/Gets.antt =====
-- `Get` of xsync/pool.go takes out of the pool what it returns, and nothing else.
use srcrd.Prelude.{ℕ, ◌+◌, ◌<◌, ◌≡◌, ◌∙◌, sym, set, arith, true, false, inl, inr, Bool-cases}
use srcrd.Xsync.PoolQueue.{Value}
use srcrd.Xsync.Pool.{Pool, index_local, is_nil, steal, pin, get_victim, get_slow, take_local, take}
use srcrd.Xsync.Pool.Amount.{amount, amount_array-set, AreChains-index}
use srcrd.Xsync.Pool.Steal.{steal-Taken}
use srcrd.Xsync.Pool.Conserve.{IsPool, Lost, IsPinnable, pin-Pinned, set-IsPool, one-nil}
use srcrd.Xsync.Pool.Takes.{take_local_balance, get_victim-Lost}

-- What one loss leaves can be lost from again, if the first gave nil.
Lost-trans :
    (p q : Pool) (x : Value) (out : Value × Pool)
    → Lost p (x, q)
    → is_nil x ≡ true
    → Lost q out
    → Lost p out
Lost-trans p q x out l e k = record {
  valid = k.valid;
  balance = λ a. omega (arith, l.balance a, k.balance a, one-nil a x e);
}

slow_none :
    (pid : ℕ) (p : Pool)
    → is_nil (steal p.local_size (pid + 1) p.local_size p.local).0 ≡ true
    → get_slow pid p
      ≡ get_victim pid (record p { local = (steal p.local_size (pid + 1) p.local_size p.local).1 })
unfolding get_slow
slow_none pid p e = ground arith

slow_some :
    (pid : ℕ) (p : Pool)
    → is_nil (steal p.local_size (pid + 1) p.local_size p.local).0 ≡ false
    → get_slow pid p ≡ (
      (steal p.local_size (pid + 1) p.local_size p.local).0,
      record p { local = (steal p.local_size (pid + 1) p.local_size p.local).1 },
    )
unfolding get_slow
slow_some pid p e = ground arith

stolen-Lost :
    (pid : ℕ) (p : Pool)
    → IsPool p
    → 0 < p.local_size
    → Lost p (
      (steal p.local_size (pid + 1) p.local_size p.local).0,
      record p { local = (steal p.local_size (pid + 1) p.local_size p.local).1 },
    )
unfolding amount
stolen-Lost pid p v h =
    let t =
      steal-Taken p.local_size (pid + 1) p.local_size p.local h (omega (arith, v.local_whole))
        v.local_chains in
    record {
      valid = record {
        local_whole = v.local_whole ∙ sym t.same_length;
        victim_whole = v.victim_whole;
        local_chains = t.chains;
        victim_chains = v.victim_chains;
      };
      balance = λ a. omega (arith, t.balance a);
    }

get_slow-Lost : (pid : ℕ) (p : Pool) → IsPool p → 0 < p.local_size → Lost p (get_slow pid p)
get_slow-Lost pid p v h =
    let l = stolen-Lost pid p v h in
    elim (Bool-cases (is_nil (steal p.local_size (pid + 1) p.local_size p.local).0)) [
      | inl e ↦ rw (slow_none pid p e) (Lost-trans p _ _ _ l e (get_victim-Lost pid _ l.valid))
      | inr e ↦ rw (slow_some pid p e) l
    ]

-- The pool after the own part was tried.
abbrev tried : ℕ → Pool → Pool
tried pid q = record q { local = set q.local pid (take_local (index_local q.local pid)).1 }

own-Lost :
    (pid : ℕ) (q : Pool)
    → IsPool q
    → pid < q.local_size
    → Lost q ((take_local (index_local q.local pid)).0, tried pid q)
unfolding amount
own-Lost pid q v h =
    let b =
      take_local_balance (index_local q.local pid) (AreChains-index pid q.local v.local_chains) in
    record {
      valid = set-IsPool q pid _ v b.0;
      balance = λ a. omega (
        arith,
        b.1 a,
        amount_array-set a pid q.local (take_local (index_local q.local pid)).1
            (omega (arith, v.local_whole)),
      );
    }

take_own :
    (pid procs : ℕ) (p : Pool)
    → is_nil (take_local (index_local (pin pid procs p).local pid)).0 ≡ false
    → take pid procs p
      ≡ ((take_local (index_local (pin pid procs p).local pid)).0, tried pid (pin pid procs p))
unfolding take
take_own pid procs p e = ground arith

take_other :
    (pid procs : ℕ) (p : Pool)
    → is_nil (take_local (index_local (pin pid procs p).local pid)).0 ≡ true
    → take pid procs p ≡ get_slow pid (tried pid (pin pid procs p))
unfolding take
take_other pid procs p e = ground arith

Lost-same :
    (p q : Pool) (out : Value × Pool)
    → ((a : ℕ) → amount a q ≡ amount a p)
    → Lost q out
    → Lost p out
Lost-same p q out s l = record { valid = l.valid; balance = λ a. l.balance a ∙ s a }

-- On a well-formed pool that has an array for the processor or none yet, `Get` up to the call of `New`
-- takes away exactly the item that it returns, wherever it found it, and nothing if it returns nil;
-- the pool stays well-formed.
pub take-Lost :
    (pid procs : ℕ) (p : Pool)
    → pid < procs
    → IsPinnable pid p
    → IsPool p
    → Lost p (take pid procs p)
take-Lost pid procs p h f v =
    let w = pin-Pinned pid procs p h f v in
    let own = own-Lost pid (pin pid procs p) w.valid w.inside in
    Lost-same p (pin pid procs p) _ w.same
      (elim (Bool-cases (is_nil (take_local (index_local (pin pid procs p).local pid)).0)) [
        | inl e ↦
            rw (take_other pid procs p e)
              (Lost-trans _ _ _ _ own e (get_slow-Lost pid _ own.valid (omega (arith, w.inside))))
        | inr e ↦ rw (take_own pid procs p e) own
      ])
