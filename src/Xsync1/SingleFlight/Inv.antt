-- ===== src/Xsync1/SingleFlight/Inv.antt =====
-- What holds of the calls and the callers of xsync1/singleflight.go.
use srcrd.Prelude.{
  ℕ, ◌≡◌, ◌≢◌, sym, ap, ◌∙◌, ◌⊎◌, inl, inr, Option, none, some, ◌==◌, Bool-cases, arith,
}
use mathlib.Core.Path.{subst}
use srcrd.Threads.{assign}
use srcrd.Xsync1.SingleFlight.{
  Call, Pc, outside, waiting, running, stored, finished, returned, System,
}

-- How far a call is.
pub data Phase (pc : ℕ → Pc) (k : ℕ) (c : Call) : Type 0 where
  in_fn : c.wg ≡ 1 → c.val ≡ none → pc c.leader ≡ running k → Phase pc k c
  in_done : (v : ℕ) → c.wg ≡ 1 → c.val ≡ some v → pc c.leader ≡ stored k → Phase pc k c
  over : (v : ℕ) → c.wg ≡ 0 → c.val ≡ some v → Phase pc k c

-- What a caller knows of the call of its key.
abbrev pub Knows : ℕ → Pc → Call → Type 0
Knows i outside c = Unit
Knows i (waiting k) c = Unit
Knows i (running k) c = (c.leader ≡ i) × (c.wg ≡ 1)
Knows i (stored k) c = (c.leader ≡ i) × (c.wg ≡ 1)
Knows i (finished k) c = c.wg ≡ 0
Knows i (returned k v b) c = (c.wg ≡ 0) × (c.val ≡ v)

abbrev pub key_of : Pc → Option ℕ
key_of outside = none
key_of (waiting k) = some k
key_of (running k) = some k
key_of (stored k) = some k
key_of (finished k) = some k
key_of (returned k v b) = some k

pub record IsValid (s : System) : Type 0 where
  pub unmade : (k : ℕ) → s.m k ≡ none → s.runs k ≡ 0
  pub once : (k : ℕ) (c : Call) → s.m k ≡ some c → s.runs k ≡ 1
  pub phase : (k : ℕ) (c : Call) → s.m k ≡ some c → Phase s.pc k c
  pub made : (i k : ℕ) → key_of (s.pc i) ≡ some k → (c : Call) × (s.m k ≡ some c)
  pub knows : (i k : ℕ) (c : Call) → key_of (s.pc i) ≡ some k → s.m k ≡ some c → Knows i (s.pc i) c

-- A change at the caller `i` and the call of the key `k`.
pub record Moves (s t : System) (i k : ℕ) (c : Call) : Type 0 where
  pub entry : t.m k ≡ some c
  pub entries : (j : ℕ) → k ≢ j → t.m j ≡ s.m j
  pub callers : (j : ℕ) → i ≢ j → t.pc j ≡ s.pc j
  pub ran : t.runs k ≡ 1
  pub runs : (j : ℕ) → k ≢ j → t.runs j ≡ s.runs j
  pub phase : Phase t.pc k c
  pub key : (j : ℕ) → key_of (s.pc i) ≡ some j → k ≡ j
  pub new_key : (j : ℕ) → key_of (t.pc i) ≡ some j → k ≡ j
  pub own : Knows i (t.pc i) c
  pub others : (j : ℕ) → i ≢ j → key_of (s.pc j) ≡ some k → Knows j (s.pc j) c

same_or : (a b : ℕ) → (a ≡ b) ⊎ (a ≢ b)
same_or a b = elim (Bool-cases (a == b)) [
  | inl e ↦ inl (ground arith)
  | inr e ↦ inr (λ g. ground arith)
]

-- Another call goes on as it was.
Phase-other :
    {s t : System} {i k : ℕ} {c : Call} (h : Moves s t i k c) (j : ℕ) (d : Call)
    → k ≢ j
    → Phase s.pc j d
    → Phase t.pc j d
Phase-other {s} {t} {i} h j d ne (in_fn w v e) = elim (same_or i d.leader) [
  | inl z ↦ absurd (ne (h.key j (ap (λ x. key_of (s.pc x)) z ∙ ap key_of e)))
  | inr z ↦ in_fn w v (h.callers d.leader z ∙ e)
]
Phase-other {s} {t} {i} h j d ne (in_done x w v e) = elim (same_or i d.leader) [
  | inl z ↦ absurd (ne (h.key j (ap (λ x. key_of (s.pc x)) z ∙ ap key_of e)))
  | inr z ↦ in_done x w v (h.callers d.leader z ∙ e)
]
Phase-other h j d ne (over x w v) = over x w v

some_same : (c d : Call) → some c ≡ some d → c ≡ d
some_same c d e = ground arith

some_not_none : (c : Call) → some c ≢ none
some_not_none c e = ground arith

module _ {s t : System} {i k : ℕ} {c : Call} (v : IsValid s) (h : Moves s t i k c) where
  the_call : (j : ℕ) (d : Call) → k ≡ j → t.m j ≡ some d → c ≡ d
  the_call j d e g = some_same c d (sym h.entry ∙ ap t.m e ∙ g)

  call_state : (j : ℕ) (d : Call) → t.m j ≡ some d → Phase t.pc j d
  call_state j d g = elim (same_or k j) [
    | inl e ↦ subst (λ x. Phase t.pc x d) e (subst (λ x. Phase t.pc k x) (the_call j d e g) h.phase)
    | inr ne ↦ Phase-other h j d ne (v.phase j d (sym (h.entries j ne) ∙ g))
  ]

  moves_made : (x j : ℕ) → key_of (t.pc x) ≡ some j → (d : Call) × (t.m j ≡ some d)
  moves_made x j g = elim (same_or k j) [
    | inl e ↦ (c, ap t.m (sym e) ∙ h.entry)
    | inr ne ↦ elim (same_or i x) [
      | inl z ↦ absurd (ne (h.new_key j (ap (λ y. key_of (t.pc y)) z ∙ g)))
      | inr nz ↦
          let (d, f) = v.made x j (ap key_of (sym (h.callers x nz)) ∙ g) in (d, h.entries j ne ∙ f)
    ]
  ]

  moves_knows :
      (x j : ℕ) (d : Call) → key_of (t.pc x) ≡ some j → t.m j ≡ some d → Knows x (t.pc x) d
  moves_knows x j d g f = elim (same_or i x) [
    | inl z ↦
        let e = h.new_key j (ap (λ y. key_of (t.pc y)) z ∙ g) in
        subst (λ y. Knows y (t.pc y) d) z (subst (λ w. Knows i (t.pc i) w) (the_call j d e f) h.own)
    | inr nz ↦ elim (same_or k j) [
      | inl e ↦
          let o = h.others x nz (ap key_of (sym (h.callers x nz)) ∙ g ∙ ap some (sym e)) in
          subst (λ q. Knows x q d) (sym (h.callers x nz))
            (subst (λ w. Knows x (s.pc x) w) (the_call j d e f) o)
      | inr ne ↦
          subst (λ q. Knows x q d) (sym (h.callers x nz))
            (v.knows x j d (ap key_of (sym (h.callers x nz)) ∙ g) (sym (h.entries j ne) ∙ f))
    ]
  ]

  pub Moves-IsValid : IsValid t
  Moves-IsValid = record {
    unmade = λ j g. elim (same_or k j) [
      | inl e ↦
          let f : t.m j ≡ some c = ap t.m (sym e) ∙ h.entry in absurd (some_not_none c (sym f ∙ g))
      | inr ne ↦ h.runs j ne ∙ v.unmade j (sym (h.entries j ne) ∙ g)
    ];
    once = λ j d g. elim (same_or k j) [
      | inl e ↦ ap t.runs (sym e) ∙ h.ran
      | inr ne ↦ h.runs j ne ∙ v.once j d (sym (h.entries j ne) ∙ g)
    ];
    phase = call_state;
    made = moves_made;
    knows = moves_knows;
  }

pub assign_same : {A : Type 0} (f : ℕ → A) (i : ℕ) (a : A) → assign f i a i ≡ a
assign_same f i a = ground arith

pub assign_other : {A : Type 0} (f : ℕ → A) (i : ℕ) (a : A) (j : ℕ) → i ≢ j → assign f i a j ≡ f j
assign_other f i a j ne = ground arith
