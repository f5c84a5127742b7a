-- ===== src/Xsync1/SingleFlight/Steps.antt =====
-- Every step of xsync1/singleflight.go keeps what Inv says.
use srcrd.Prelude.{ℕ, ◌+◌, ◌-◌, ◌≡◌, ◌≢◌, refl, sym, ap, ◌∙◌, Option, none, some, arith}
use mathlib.Core.Path.{subst}
use srcrd.Threads.{assign}
use srcrd.Xsync1.SingleFlight.{
  Call, Pc, outside, waiting, running, stored, finished, returned, System, Step, join_call,
  make_call, fn_returns, call_done, return_own, return_shared, leave, Reach, start, after,
}
use srcrd.Xsync1.SingleFlight.Inv.{
  Phase, in_fn, in_done, over, Knows, key_of, IsValid, Moves-IsValid, assign_same, assign_other,
}

-- The count of duplicates does not matter to the callers.
dups-Knows : (j : ℕ) (w : Pc) (c : Call) (n : ℕ) → Knows j w c → Knows j w (record c { dups = n })
dups-Knows j outside c n h = tt
dups-Knows j (waiting k) c n h = tt
dups-Knows j (running k) c n h = h
dups-Knows j (stored k) c n h = h
dups-Knows j (finished k) c n h = h
dups-Knows j (returned k v b) c n h = h

-- Who does not lead a call that is not over knows nothing of it.
other-Knows :
    (i j : ℕ) (w : Pc) (c d : Call) → c.leader ≡ i → c.wg ≡ 1 → i ≢ j → Knows j w c → Knows j w d
other-Knows i j outside c d l o ne h = tt
other-Knows i j (waiting k) c d l o ne h = tt
other-Knows i j (running k) c d l o ne h = absurd (ne (sym l ∙ h.0))
other-Knows i j (stored k) c d l o ne h = absurd (ne (sym l ∙ h.0))
other-Knows i j (finished k) c d l o ne h = absurd (omega arith)
other-Knows i j (returned k v b) c d l o ne h = absurd (omega (arith, h.0))

dups-Phase :
    (pc : ℕ → Pc) (i k : ℕ) (q : Pc) (c : Call) (n : ℕ)
    → pc i ≢ running k
    → pc i ≢ stored k
    → Phase pc k c
    → Phase (assign pc i q) k (record c { dups = n })
dups-Phase pc i k q c n r t (in_fn w v e) =
    in_fn w v (assign_other pc i q c.leader (λ z. r (ap pc z ∙ e)) ∙ e)
dups-Phase pc i k q c n r t (in_done x w v e) =
    in_done x w v (assign_other pc i q c.leader (λ z. t (ap pc z ∙ e)) ∙ e)
dups-Phase pc i k q c n r t (over x w v) = over x w v

-- The last of a call: its function has returned.
done-Phase :
    (pc pc' : ℕ → Pc) (k : ℕ) (c : Call)
    → pc c.leader ≡ stored k
    → Phase pc k c
    → Phase pc' k (record c { wg = c.wg - 1 })
done-Phase pc pc' k c h (in_fn w v e) = absurd (ground arith)
done-Phase pc pc' k c h (in_done x w v e) = over x (omega arith) v
done-Phase pc pc' k c h (over x w v) = over x (omega arith) v

-- A step of the caller `i` from `p` to `q`, at a call that is there.
record At (s : System) (m : ℕ → Option Call) (i k : ℕ) (p q : Pc) (c d : Call) : Type 0 where
  at : s.pc i ≡ p
  was : s.m k ≡ some c
  entry : m k ≡ some d
  entries : (j : ℕ) → k ≢ j → m j ≡ s.m j
  phase : Phase (assign s.pc i q) k d
  key : (j : ℕ) → key_of p ≡ some j → k ≡ j
  new_key : (j : ℕ) → key_of q ≡ some j → k ≡ j
  own : Knows i q d
  others : (j : ℕ) → i ≢ j → Knows j (s.pc j) c → Knows j (s.pc j) d

At-IsValid :
    {s : System} {m : ℕ → Option Call} {i k : ℕ} {p q : Pc} {c d : Call}
    → IsValid s
    → At s m i k p q c d
    → IsValid (record s { m = m; pc = assign s.pc i q })
At-IsValid {s} {m} {i} {k} {p} {q} {c} {d} v a = Moves-IsValid {i = i} {k = k} {c = d} v (record {
  entry = a.entry;
  entries = a.entries;
  callers = assign_other s.pc i q;
  ran = v.once k c a.was;
  runs = λ j ne. refl;
  phase = a.phase;
  key = λ j g. a.key j (ap key_of (sym a.at) ∙ g);
  new_key = λ j g. a.new_key j (ap key_of (sym (assign_same s.pc i q)) ∙ g);
  own = subst (λ w. Knows i w d) (sym (assign_same s.pc i q)) a.own;
  others = λ j ne g. a.others j ne (v.knows j k c g a.was);
})

-- What the caller `i` knows of its call.
pub at_knows :
    {s : System} (v : IsValid s) (i k : ℕ) (p : Pc) (c : Call)
    → s.pc i ≡ p
    → key_of p ≡ some k
    → s.m k ≡ some c
    → Knows i p c
at_knows v i k p c h e g = subst (λ w. Knows i w c) h (v.knows i k c (ap key_of h ∙ e) g)

outside_free : (w : Pc) (j : ℕ) → w ≡ outside → key_of w ≢ some j
outside_free w j h g = ground arith

some_key : (k j : ℕ) → some k ≡ some j → k ≡ j
some_key k j e = ground arith

unmade_free : (m : ℕ → Option Call) (k : ℕ) (c : Call) → m k ≡ none → m k ≢ some c
unmade_free m k c e f = ground arith

Step-IsValid : {s t : System} → Step s t → IsValid s → IsValid t
Step-IsValid {s} (join_call i k c h e) v = At-IsValid v (record {
  at = h;
  was = e;
  entry = assign_same s.m k _;
  entries = assign_other s.m k _;
  phase = dups-Phase s.pc i k _ c _ (λ z. ground arith) (λ z. ground arith) (v.phase k c e);
  key = λ j g. ground arith;
  new_key = λ j g. ground arith;
  own = tt;
  others = λ j ne. dups-Knows j (s.pc j) c (c.dups + 1);
})
Step-IsValid {s} (make_call i k h e) v =
    Moves-IsValid {i = i} {k = k} {c = record { val = none; wg = 1; dups = 0; leader = i }} v
      (record {
        entry = assign_same s.m k _;
        entries = assign_other s.m k _;
        callers = assign_other s.pc i (running k);
        ran = assign_same s.runs k _ ∙ omega (arith, v.unmade k e);
        runs = assign_other s.runs k _;
        phase = in_fn refl refl (assign_same s.pc i (running k));
        key = λ j g. absurd (outside_free (s.pc i) j h g);
        new_key = λ j g. some_key k j (ap key_of (sym (assign_same s.pc i (running k))) ∙ g);
        own =
            subst (λ w. Knows i w (record { val = none; wg = 1; dups = 0; leader = i }))
              (sym (assign_same s.pc i (running k))) (refl, refl);
        others = λ j ne g. let (c, f) = v.made j k g in absurd (unmade_free s.m k c e f);
      })
Step-IsValid {s} (fn_returns i k c x h e) v =
    let o : Knows i (running k) c = at_knows v i k (running k) c h refl e in
    At-IsValid v (record {
      at = h;
      was = e;
      entry = assign_same s.m k _;
      entries = assign_other s.m k _;
      phase =
          in_done x o.1 refl (ap (assign s.pc i (stored k)) o.0 ∙ assign_same s.pc i (stored k));
      key = λ j g. ground arith;
      new_key = λ j g. ground arith;
      own = o;
      others = λ j ne. other-Knows i j (s.pc j) c _ o.0 o.1 ne;
    })
Step-IsValid {s} (call_done i k c h e) v =
    let o : Knows i (stored k) c = at_knows v i k (stored k) c h refl e in
    At-IsValid v (record {
      at = h;
      was = e;
      entry = assign_same s.m k _;
      entries = assign_other s.m k _;
      phase = done-Phase s.pc _ k c (ap s.pc o.0 ∙ h) (v.phase k c e);
      key = λ j g. ground arith;
      new_key = λ j g. ground arith;
      own = omega (arith, o.1);
      others = λ j ne. other-Knows i j (s.pc j) c _ o.0 o.1 ne;
    })
Step-IsValid {s} (return_own i k c h e) v = At-IsValid v (record {
  at = h;
  was = e;
  entry = e;
  entries = λ j ne. refl;
  phase = dups-Phase s.pc i k _ c c.dups (λ z. ground arith) (λ z. ground arith) (v.phase k c e);
  key = λ j g. ground arith;
  new_key = λ j g. ground arith;
  own = (at_knows v i k (finished k) c h refl e, refl);
  others = λ j ne g. g;
})
Step-IsValid {s} (return_shared i k c h e w) v = At-IsValid v (record {
  at = h;
  was = e;
  entry = e;
  entries = λ j ne. refl;
  phase = dups-Phase s.pc i k _ c c.dups (λ z. ground arith) (λ z. ground arith) (v.phase k c e);
  key = λ j g. ground arith;
  new_key = λ j g. ground arith;
  own = (w, refl);
  others = λ j ne g. g;
})
Step-IsValid {s} (leave i k x b h) v =
    let (c, e) = v.made i k (ap key_of h) in
    At-IsValid v (record {
      at = h;
      was = e;
      entry = e;
      entries = λ j ne. refl;
      phase =
          dups-Phase s.pc i k _ c c.dups (λ z. ground arith) (λ z. ground arith) (v.phase k c e);
      key = λ j g. ground arith;
      new_key = λ j g. ground arith;
      own = tt;
      others = λ j ne g. g;
    })

pub Reach-IsValid : {s : System} → Reach s → IsValid s
Reach-IsValid start = record {
  unmade = λ k g. refl;
  once = λ k c g. absurd (ground arith);
  phase = λ k c g. absurd (ground arith);
  made = λ i k g. absurd (ground arith);
  knows = λ i k c g f. tt;
}
Reach-IsValid (after r t) = Step-IsValid t (Reach-IsValid r)
