-- ===== src/Xsync/Pool/Takes.antt =====
-- What xsync/pool.go takes from the own part of a pool and from the victim of the last cleanup.
use native.Mathlib.Decide.{dec_lt}
use srcrd.Prelude.{ℕ, ◌+◌, ◌≤◌, ◌<◌, ◌≡◌, set, length-set, arith, true, false, inl, inr, Bool-cases}
use srcrd.Xsync.PoolQueue.{nil}
use srcrd.Xsync.PoolChain
use srcrd.Xsync.PoolChain.{PoolChain}
use srcrd.Xsync.PoolChain.Rings.{IsChain}
use srcrd.Xsync.PoolChain.Refine.{pop_head_newest}
use srcrd.Xsync.Pool.{
  PoolLocal, Pool, index_local, value_or_nil, is_nil, steal, steal_victim, get_victim, take_local,
}
use srcrd.Xsync.Pool.Amount.{
  one, amount_local, amount, amount_array-set, AreChains-set, AreChains-index, count-pop_head,
}
use srcrd.Xsync.Pool.Steal.{Taken, steal-Taken}
use srcrd.Xsync.Pool.Conserve.{IsPool, Lost, one-nil}

pub take_private :
    (l : PoolLocal)
    → is_nil l.private ≡ false
    → take_local l ≡ (l.private, record l { private = nil })
unfolding take_local
take_private l e = ground arith

pub take_shared :
    (l : PoolLocal)
    → is_nil l.private ≡ true
    → take_local l ≡ (
      value_or_nil (PoolChain.pop_head l.shared).0,
      record { private = nil; shared = (PoolChain.pop_head l.shared).1 },
    )
unfolding take_local
take_shared l e = ground arith

pub take_local_balance :
    (l : PoolLocal)
    → IsChain l.shared
    → IsChain (take_local l).1.shared
      × ((a : ℕ) → amount_local a (take_local l).1 + one a (take_local l).0 ≡ amount_local a l)
unfolding amount_local
take_local_balance l c = elim (Bool-cases (is_nil l.private)) [
  | inl e ↦ rw (take_shared l e) (
    (pop_head_newest l.shared c).0,
    λ a. omega (arith, one-nil a l.private e, count-pop_head a l.shared c),
  )
  | inr e ↦ rw (take_private l e) (c, λ a. omega arith)
]

-- The victim of the last cleanup: its shared parts.
pub victim_none :
    (pid : ℕ) (p : Pool)
    → is_nil (steal p.victim_size pid p.victim_size p.victim).0 ≡ true
    → steal_victim pid p ≡ (
      nil,
      record p { victim = (steal p.victim_size pid p.victim_size p.victim).1; victim_size = 0 },
    )
unfolding steal_victim
victim_none pid p e = ground arith

pub victim_some :
    (pid : ℕ) (p : Pool)
    → is_nil (steal p.victim_size pid p.victim_size p.victim).0 ≡ false
    → steal_victim pid p ≡ (
      (steal p.victim_size pid p.victim_size p.victim).0,
      record p { victim = (steal p.victim_size pid p.victim_size p.victim).1 },
    )
unfolding steal_victim
victim_some pid p e = ground arith

pub steal_victim-Lost :
    (pid : ℕ) (p : Pool) → IsPool p → 0 < p.victim_size → Lost p (steal_victim pid p)
unfolding amount
steal_victim-Lost pid p v h =
    elim (Bool-cases (is_nil (steal p.victim_size pid p.victim_size p.victim).0)) [
      | inl e ↦ rw (victim_none pid p e) (record {
        valid = record {
          local_whole = v.local_whole;
          victim_whole = omega arith;
          local_chains = v.local_chains;
          victim_chains = t.chains;
        };
        balance = λ a. omega (arith, t.balance a, one-nil a _ e);
      })
      | inr e ↦ rw (victim_some pid p e) (record {
        valid = record {
          local_whole = v.local_whole;
          victim_whole = rw t.same_length v.victim_whole;
          local_chains = v.local_chains;
          victim_chains = t.chains;
        };
        balance = λ a. omega (arith, t.balance a);
      })
    ]
  where
    t : Taken p.victim (steal p.victim_size pid p.victim_size p.victim)
    t = steal-Taken p.victim_size pid p.victim_size p.victim h v.victim_whole v.victim_chains

pub get_victim_old : (pid : ℕ) (p : Pool) → p.victim_size ≤ pid → get_victim pid p ≡ (nil, p)
unfolding get_victim
get_victim_old pid p h = ground arith

pub get_victim_shared :
    (pid : ℕ) (p : Pool)
    → pid < p.victim_size
    → is_nil (index_local p.victim pid).private ≡ true
    → get_victim pid p ≡ steal_victim pid p
unfolding get_victim
get_victim_shared pid p h e = ground arith

pub get_victim_private :
    (pid : ℕ) (p : Pool)
    → pid < p.victim_size
    → is_nil (index_local p.victim pid).private ≡ false
    → get_victim pid p ≡ (
      (index_local p.victim pid).private,
      record p { victim = set p.victim pid (record (index_local p.victim pid) { private = nil }) },
    )
unfolding get_victim
get_victim_private pid p h e = ground arith

pub get_victim-Lost : (pid : ℕ) (p : Pool) → IsPool p → Lost p (get_victim pid p)
unfolding amount amount_local
get_victim-Lost pid p v = elim (dec_lt pid p.victim_size) [
  | no old ↦
      rw (get_victim_old pid p (omega arith)) (record { valid = v; balance = λ a. omega arith })
  | yes h ↦ elim (Bool-cases (is_nil (index_local p.victim pid).private)) [
    | inl e ↦ rw (get_victim_shared pid p h e) (steal_victim-Lost pid p v (omega arith))
    | inr e ↦ rw (get_victim_private pid p h e) (record {
      valid = record {
        local_whole = v.local_whole;
        victim_whole = rw length-set v.victim_whole;
        local_chains = v.local_chains;
        victim_chains =
            AreChains-set pid p.victim _ v.victim_chains
              (AreChains-index pid p.victim v.victim_chains);
      };
      balance = λ a. omega (
        arith,
        amount_array-set a pid p.victim (record (index_local p.victim pid) { private = nil })
            (omega (arith, v.victim_whole)),
      );
    })
  ]
]
