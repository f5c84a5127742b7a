-- ===== src/Xsync/PoolChain/Rings.antt =====
-- The rings of a chain of xsync/pool_chain.go: each has a power of 2 of slots, and stays well-formed.
use native.Mathlib.Nat.{pow-suc, pow-le-pow_right}
use native.Mathlib.Decide.{ℕ_discrete}
use srcrd.Prelude.{
  ℕ, zero, suc, ◌-◌, ◌*◌, ◌^◌, ◌≤◌, ◌<◌, ◌≡◌, refl, ◌∙◌, sym, ap, List, [], ◌∷◌, ◌++◌, length,
  arith, Bool, true, false, ◌==◌, if◌then◌else◌, leb, Bool-cases, inl, inr, replicate,
  length-replicate, get_or,
}
use srcrd.Xsync.PoolQueue
use srcrd.Xsync.PoolQueue.{Value, empty, PoolDequeue, dequeue_limit, slot_at}
use srcrd.Xsync.PoolQueue.Inv.{IsValid, contents, length-contents}
use srcrd.Xsync.PoolQueue.Refine.{push_head_refines, pop_head_refines, pop_tail_refines}
use srcrd.Xsync.PoolChain.{PoolChain, new_dequeue, next_size}

-- A ring of the chain: well-formed, with a power of 2 of slots.
pub record IsRing (d : PoolDequeue) : Type 0 where
  pub valid : IsValid d
  pub exponent : ℕ
  pub bits : exponent ≤ 30
  pub power : length d.vals ≡ 2 ^ exponent

abbrev pub IsChain : PoolChain → Type 0
IsChain [] = Unit
IsChain (d ∷ c) = IsRing d × IsChain c

-- The values of all rings, oldest first.
unfoldable pub values : PoolChain → List Value
values [] = []
values (d ∷ c) = contents d ++ values c

-- The powers of 2 up to 2 ^ 30 divide 2 ^ 32.
all_powers : ℕ → Bool
all_powers zero = true
all_powers (suc k) = if 2 ^ k * 2 ^ (32 - k) == 2 ^ 32 then all_powers k else false

all_powers_sound : (n k : ℕ) → all_powers n ≡ true → k < n → 2 ^ k * 2 ^ (32 - k) ≡ 2 ^ 32
unfolding all_powers
all_powers_sound zero k e h = absurd (omega arith)
all_powers_sound (suc n) k e h = elim (ℕ_discrete k n) [
  | yes same ↦ rw same (ground arith)
  | no other ↦ all_powers_sound n k (ground arith) (omega arith)
]

power_divides : (k : ℕ) → k ≤ 30 → 2 ^ k * 2 ^ (32 - k) ≡ 2 ^ 32
unfolding all_powers
power_divides k h = all_powers_sound 31 k refl (omega arith)

pub nil_of_length : (q : List Value) → length q ≡ 0 → q ≡ []
nil_of_length [] e = refl
nil_of_length (x ∷ q) e = absurd (omega arith)

get_or-replicate : (n i : ℕ) → get_or (replicate n empty) i empty ≡ empty
get_or-replicate zero i = refl
get_or-replicate (suc n) zero = refl
get_or-replicate (suc n) (suc i) = get_or-replicate n i

pub new-IsRing : (k : ℕ) → k ≤ 30 → IsRing (new_dequeue (2 ^ k))
unfolding new_dequeue
new-IsRing k h = record {
  valid = record {
    word = omega arith;
    quotient = 2 ^ (32 - k);
    divides = rw (length-replicate (2 ^ k) empty) (power_divides k h);
    limit = rw (length-replicate (2 ^ k) empty) (pow-le-pow_right {n = 2} (omega arith) h);
    fits = omega arith;
    spare = λ j _ _. get_or-replicate (2 ^ k) _;
  };
  exponent = k;
  bits = h;
  power = length-replicate (2 ^ k) empty;
}

leb-false : (a b : ℕ) → leb a b ≡ false → b < a
leb-false a b h = ground arith

-- The next ring has a power of 2 of slots too, up to the limit.
next_exponent : (k : ℕ) → k ≤ 30 → (j : ℕ) × (j ≤ 30) × (next_size (2 ^ k) ≡ 2 ^ j)
unfolding next_size
next_exponent k h = elim (Bool-cases (leb dequeue_limit (2 ^ k * 2))) [
  | inl big ↦ (30, omega arith, rw big)
  | inr small ↦ (suc k, below small, rw small (sym (pow-suc 2 k)))
]
  where
    below : leb dequeue_limit (2 ^ k * 2) ≡ false → suc k ≤ 30
    below small = elim (ℕ_discrete k 30) [
      | yes e ↦ absurd (omega (arith, leb-false _ _ small, ap (λ j. 2 ^ j) e))
      | no ne ↦ omega arith
    ]

pub next-IsRing : (d : PoolDequeue) → IsRing d → IsRing (new_dequeue (next_size (length d.vals)))
next-IsRing d r =
    let (j, h, e) = next_exponent r.exponent r.bits in rw (r.power, e) (new-IsRing j h)

pub contents_new : (n : ℕ) → contents (new_dequeue n) ≡ []
unfolding new_dequeue
contents_new n = nil_of_length (contents (new_dequeue n)) (length-contents (new_dequeue n))

-- The operations of a ring, as the chain uses them.
pub push-IsRing : (d : PoolDequeue) (x : Value) → IsRing d → IsRing (PoolQueue.push_head x d).1
push-IsRing d x r =
    let p = push_head_refines d x r.valid in
    record { valid = p.0; exponent = r.exponent; bits = r.bits; power = p.2 ∙ r.power }

pub pop_head-IsRing : (d : PoolDequeue) → IsRing d → IsRing (PoolQueue.pop_head d).1
pop_head-IsRing d r =
    let p = pop_head_refines d r.valid in
    record { valid = p.0; exponent = r.exponent; bits = r.bits; power = p.2 ∙ r.power }

pub pop_tail-IsRing : (d : PoolDequeue) → IsRing d → IsRing (PoolQueue.pop_tail d).1
pop_tail-IsRing d r =
    let p = pop_tail_refines d r.valid in
    record { valid = p.0; exponent = r.exponent; bits = r.bits; power = p.2 ∙ r.power }
