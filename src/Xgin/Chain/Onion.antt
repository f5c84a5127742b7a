-- ===== src/Xgin/Chain/Onion.antt =====
-- What the chain of xgin/context.go does: each handler once, the rest of the chain inside of it.
use srcrd.Prelude.{
  ℕ, zero, suc, ◌+◌, ◌%◌, ◌≤◌, ◌<◌, ◌≡◌, refl, sym, ap, ap₂, ◌∙◌, true, some, List, [], ◌∷◌, ◌++◌,
  length, get_elem?, arith, ltb,
}
use srcrd.Xgin.Chain.{
  next, act, HandlerFunc, Context, Outcome, done, ◌>>=◌, lt8, int8, increment, next_loop,
  run_handler, run_next,
}

module _ {E : Type 0} where
  -- All actions of a handler, and how often it calls `Next`.
  unfoldable pub acts : HandlerFunc E → List E
  acts [] = []
  acts (act e ∷ h) = e ∷ acts h
  acts (next ∷ h) = acts h

  unfoldable pub nexts : HandlerFunc E → ℕ
  nexts [] = 0
  nexts (act e ∷ h) = nexts h
  nexts (next ∷ h) = suc (nexts h)

  -- The actions around those of the rest of the chain: it runs at the first call of `Next`, or after
  -- the handler, and later calls do nothing.
  unfoldable pub around : HandlerFunc E → List E → List E
  around [] inner = inner
  around (act e ∷ h) inner = e ∷ around h inner
  around (next ∷ h) inner = inner ++ acts h

  unfoldable pub onion : List (HandlerFunc E) → List E
  onion [] = []
  onion (h ∷ hs) = around h (onion hs)

  unfoldable pub all_nexts : List (HandlerFunc E) → ℕ
  all_nexts [] = 0
  all_nexts (h ∷ hs) = nexts h + all_nexts hs

module _ {E B : Type 0} (perform : E → B → B) where
  pub perform_all : List E → B → B
  perform_all [] b = b
  perform_all (e ∷ es) b = perform_all es (perform e b)

  pub perform_all-append :
      (xs ys : List E) (b : B) → perform_all (xs ++ ys) b ≡ perform_all ys (perform_all xs b)
  unfolding perform_all
  perform_all-append [] ys b = refl
  perform_all-append (x ∷ xs) ys b = perform_all-append xs ys (perform x b)

-- A call ends with this context on any fuel that is large enough.
pub record Ends {C : Type 0} (g : ℕ → Outcome C) (c : C) : Type 0 where
  pub fuel : ℕ
  pub ends : (f : ℕ) → fuel ≤ f → g f ≡ done c

module _ {C : Type 0} where
  at_once : (g : ℕ → Outcome C) (c : C) → ((f : ℕ) → g (suc f) ≡ done c) → Ends g c
  at_once g c h = record { fuel = 1; ends = positive }
    where
      positive : (f : ℕ) → 1 ≤ f → g f ≡ done c
      positive zero l = absurd (omega arith)
      positive (suc f) l = h f

  later : (g g' : ℕ → Outcome C) (c : C) → ((f : ℕ) → g (suc f) ≡ g' f) → Ends g' c → Ends g c
  later g g' c h r = record { fuel = suc r.fuel; ends = positive }
    where
      positive : (f : ℕ) → suc r.fuel ≤ f → g f ≡ done c
      positive zero l = absurd (omega arith)
      positive (suc f) l = h f ∙ r.ends f (omega arith)

  bind :
      (g : ℕ → Outcome C) (k : C → ℕ → Outcome C) (c c' : C)
      → Ends g c
      → Ends (k c) c'
      → Ends (λ f. g f >>= λ x. k x f) c'
  bind g k c c' p q = record {
    fuel = p.fuel + q.fuel;
    ends = λ f l. ap (λ o. o >>= λ x. k x f) (p.ends f (omega arith)) ∙ q.ends f (omega arith);
  }

  ended_at : (g : ℕ → Outcome C) (c c' : C) → c ≡ c' → Ends g c → Ends g c'
  ended_at g c c' e r = rw (sym e) r

module _ {E B : Type 0} (perform : E → B → B) (hs : List (HandlerFunc E)) where
  abbrev place : ℕ → B → Context E B
  place i b = record { handlers = hs; index = i; body = b }

  increment_small : (i : ℕ) (b : B) → i < 128 → increment perform (place i b) ≡ place (i + 1) b
  increment_small i b l = ap (λ k. place k b) {x = (i + 1) % 256} {y = i + 1} (omega arith)

  loop_stop :
      (f i : ℕ) (b : B)
      → length hs ≤ i
      → i < 128
      → next_loop perform (suc f) (place i b) ≡ done (place i b)
  unfolding next_loop
  loop_stop f i b h l = ground arith

  loop_turn :
      (f i : ℕ) (b : B) (h : HandlerFunc E)
      → length hs < 128
      → i < length hs
      → get_elem? hs i ≡ some h
      → next_loop perform (suc f) (place i b)
        ≡ (run_handler perform f h (place i b) >>= λ c. next_loop perform f (increment perform c))
  unfolding next_loop
  loop_turn f i b h l m e =
      let below : lt8 i (int8 (length hs)) ≡ true = ground arith in
      let low : ltb i 128 ≡ true = ground arith in rw (below, low) (rw e refl)

  -- A handler behind the end of the chain: its calls of `Next` do nothing but count.
  run_after :
      (h : HandlerFunc E) (i : ℕ) (b : B)
      → length hs ≤ i
      → i + nexts h < 128
      → Ends
          (λ f. run_handler perform f h (place i b))
          (place (i + nexts h) (perform_all perform (acts h) b))
  unfolding run_handler acts nexts perform_all
  run_after [] i b l m =
      at_once _ _ (λ f. ap (λ k. done (place k b)) {x = i} {y = i + 0} (omega arith))
  run_after (act e ∷ h) i b l m = later _ _ _ (λ f. refl) (run_after h i (perform e b) l m)
  run_after (next ∷ h) i b l m =
      later _
        (λ f.
          next_loop perform f (increment perform (place i b)) >>= λ c. run_handler perform f h c)
        _ (λ f. refl)
        (bind (λ f. next_loop perform f (increment perform (place i b)))
          (λ c f. run_handler perform f h c) (place (i + 1) b) _
          (rw (increment_small i b (omega arith))
            (at_once _ _ (λ f. loop_stop f (i + 1) b (omega arith) (omega arith))))
          (ended_at _ _ _
            (ap (λ k. place k (perform_all perform (acts h) b)) {x = i + 1 + nexts h}
              {y = i + suc (nexts h)} (omega arith))
            (run_after h (i + 1) b (omega arith) (omega arith))))

  -- What is left of the chain from `i` on.
  record Suffix (i : ℕ) (rest : List (HandlerFunc E)) : Type 0 where
    size : length hs ≡ i + length rest
    same : (j k : ℕ) → k ≡ i + j → get_elem? hs k ≡ get_elem? rest j

  -- The loop from `i` on does the actions of the rest of the chain.
  abbrev Chained : ℕ → List (HandlerFunc E) → Type 0
  Chained i rest =
      (b : B)
      → Ends (λ f. next_loop perform f (place i b))
          (place (length hs + all_nexts rest) (perform_all perform (onion rest) b))

  -- A handler at `i` ends somewhere, and from there the loop goes on to its end.
  record Around (i : ℕ) (h : HandlerFunc E) (rest : List (HandlerFunc E)) (b : B) : Type 0 where
    c : Context E B
    ran : Ends (λ f. run_handler perform f h (place i b)) c
    left :
        Ends
          (λ f. next_loop perform f (increment perform c))
          (place
            (length hs + (nexts h + all_nexts rest))
            (perform_all perform (around h (onion rest)) b))

  run-Around :
      (h : HandlerFunc E) (i : ℕ) (rest : List (HandlerFunc E)) (b : B)
      → Chained (i + 1) rest
      → i < length hs
      → length hs + (nexts h + all_nexts rest) < 128
      → Around i h rest b
  unfolding run_handler acts nexts around perform_all
  run-Around [] i rest b inner l m = record {
    c = place i b;
    ran = at_once _ _ (λ f. refl);
    left = rw (increment_small i b (omega arith)) (
        ended_at _ _ _
          (ap (λ k. place (length hs + k) (perform_all perform (onion rest) b)) {x = all_nexts rest}
            {y = 0 + all_nexts rest} (omega arith))
          (inner b));
  }
  run-Around (act e ∷ h) i rest b inner l m =
      let r = run-Around h i rest (perform e b) inner l m in
      record { c = r.c; ran = later _ _ _ (λ f. refl) r.ran; left = r.left }
  run-Around (next ∷ h) i rest b inner l m =
      let top = length hs + all_nexts rest in
      let b' = perform_all perform (onion rest) b in
      let b'' = perform_all perform (acts h) b' in
      record {
        c = place (top + nexts h) b'';
        ran =
            later _
              (λ f. next_loop perform f (increment perform (place i b)) >>= λ c.
                run_handler perform f h c)
              _ (λ f. refl)
              (bind (λ f. next_loop perform f (increment perform (place i b)))
                (λ c f. run_handler perform f h c) (place top b') _
                (rw (increment_small i b (omega arith)) (inner b))
                (run_after h top b' (omega arith) (omega arith)));
        left = rw (increment_small (top + nexts h) b'' (omega arith)) (
            ended_at _ _ _
              (ap₂ place {x = top + nexts h + 1} {y = length hs + (suc (nexts h) + all_nexts rest)}
                (omega arith) (sym (perform_all-append perform (onion rest) (acts h) b)))
              (at_once _ _ (λ f. loop_stop f (top + nexts h + 1) b'' (omega arith) (omega arith))));
      }

  chain_loop :
      (rest : List (HandlerFunc E)) (i : ℕ)
      → Suffix i rest
      → length hs + all_nexts rest < 128
      → Chained i rest
  unfolding onion all_nexts perform_all
  chain_loop [] i s m b =
      ended_at _ _ _ (ap (λ k. place k b) {x = i} {y = length hs + 0} (omega (arith, s.size)))
        (at_once _ _ (λ f. loop_stop f i b (omega (arith, s.size)) (omega (arith, s.size))))
  chain_loop (h ∷ rest) i s m b =
      let inner =
        chain_loop rest (i + 1)
          (record { size = omega (arith, s.size); same = λ j k e. s.same (suc j) k (omega arith) })
          (omega arith) in
      let a = run-Around h i rest b inner (omega (arith, s.size)) m in
      later _
        (λ f.
          run_handler perform f h (place i b) >>= λ c. next_loop perform f (increment perform c))
        _ (λ f. loop_turn f i b h (omega arith) (omega (arith, s.size)) (s.same 0 i (omega arith)))
        (bind (λ f. run_handler perform f h (place i b))
          (λ c f. next_loop perform f (increment perform c)) a.c _ a.ran a.left)

-- If the handlers and their calls of `Next` are fewer than 128 together, `Next` on a context that has
-- been reset ends, and its actions are those of every handler once, in the order of the chain, with the
-- rest of the chain at a handler's first call of `Next`, or after it.
pub run_next-onion :
    {E B : Type 0} (perform : E → B → B) (hs : List (HandlerFunc E)) (b : B)
    → length hs + all_nexts hs < 128
    → Ends
        (λ f. run_next perform f (record { handlers = hs; index = 255; body = b }))
        (record {
          handlers = hs;
          index = length hs + all_nexts hs;
          body = perform_all perform (onion hs) b;
        })
unfolding run_next
run_next-onion perform hs b m =
    chain_loop perform hs hs 0
      (record {
        size = omega arith;
        same = λ j k e. ap (get_elem? hs) {x = k} {y = j} (omega arith);
      })
      m b
