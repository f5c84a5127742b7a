-- ===== src/Xfasthttp/Server/Steps.antt =====
-- Every step of xfasthttp/server.go and workerpool.go keeps the lists and the counters in step with
-- the workers: first the lists, for each kind of change.
use native.Mathlib.Decide.{dec_lt}
use srcrd.Prelude.{ℕ, ◌+◌, ◌<◌, ◌≡◌, ◌≢◌, sym, ◌∙◌, Bool, true, false, List, [], ◌∷◌, ◌++◌, arith}
use srcrd.Threads.{assign, tally, tally-assign, tally-cong}
use srcrd.Xfasthttp.WorkerPool.{WorkerChan}
use srcrd.Xfasthttp.Server.{
  Status, absent, idle, chosen, given, obsolete, served, Acceptor, accepting, accepted, handing,
  dismiss,
}
use srcrd.Xfasthttp.Server.Inv.{
  has, has-append, NoDup-cut, NoDup-front, NoDup-end, dismiss_lem, is_idle, is_chosen, hands, alive,
  conns, busy, Listing,
}

right_nil : (xs ys : List WorkerChan) → xs ++ ys ≡ [] → ys ≡ []
right_nil [] ys e = e
right_nil (x ∷ xs) ys e = absurd cc

module _ {n : ℕ} {ready : List WorkerChan} {ms : Bool} {f : ℕ → Status} {a : Acceptor}
    (v : Listing n ready ms f a) where
  -- A worker that has a goroutine has a number below `n`.
  pub inside : (w : ℕ) → f w ≢ absent → w < n
  inside w h = elim (dec_lt w n) [ yes p ↦ p | no p ↦ absurd (h (v.known w (omega arith))) ]

  -- A worker goes from one place to another, neither of them in the list or at the acceptor.
  pub Listing-assign :
      (w : ℕ) (p q : Status)
      → w < n
      → f w ≡ p
      → is_idle p ≡ is_idle q
      → is_chosen p ≡ is_chosen q
      → Listing n ready ms (assign f w q) a
  Listing-assign w p q b e i c = record {
    known = λ j h. ground (arith, v.known j h);
    listed = λ j. ground (arith, v.listed j, e);
    unique = v.unique;
    quiet = v.quiet;
    hand = λ j. ground (arith, v.hand j, e);
  }

  pub Listing-acceptor :
      (a' : Acceptor)
      → ((w : ℕ) → hands a w ≡ false)
      → ((w : ℕ) → hands a' w ≡ false)
      → Listing n ready ms f a'
  Listing-acceptor a' h h' = record {
    known = v.known;
    listed = v.listed;
    unique = v.unique;
    quiet = v.quiet;
    hand = λ j. v.hand j ∙ h j ∙ sym (h' j);
  }

  pub last_idle :
      (rest : List WorkerChan) (ch : WorkerChan) → ready ≡ rest ++ (ch ∷ []) → f ch.id ≡ idle
  unfolding has
  last_idle rest ch e = ground (arith, v.listed ch.id, has-append ch.id rest (ch ∷ []), e)

  pub Listing-choose :
      (rest : List WorkerChan) (ch : WorkerChan)
      → ready ≡ rest ++ (ch ∷ [])
      → a ≡ accepted
      → Listing n rest ms (assign f ch.id chosen) (handing ch.id)
  unfolding has
  Listing-choose rest ch e h =
      let u = NoDup-front rest ch (rw e at v.unique) in
      let member : has ch.id ready ≡ true = rw e (has-append ch.id rest (ch ∷ []) ∙ ground arith) in
      record {
        known = λ j k. ground (arith, v.known j k, v.listed ch.id, member);
        listed = λ j. ground (arith, v.listed j, has-append j rest (ch ∷ []), e, u.1);
        unique = u.0;
        quiet = λ q. let z = v.quiet q in absurd (ground (arith, member));
        hand = λ j. ground (arith, v.hand j, h);
      }

  pub Listing-create :
      (w : ℕ)
      → w < n
      → f w ≡ absent
      → a ≡ accepted
      → Listing n ready ms (assign f w chosen) (handing w)
  Listing-create w b e h = record {
    known = λ j k. ground (arith, v.known j k);
    listed = λ j. ground (arith, v.listed j, e);
    unique = v.unique;
    quiet = v.quiet;
    hand = λ j. ground (arith, v.hand j, h);
  }

  pub Listing-send : (w : ℕ) → a ≡ handing w → Listing n ready ms (assign f w given) accepting
  Listing-send w h = record {
    known = λ j k. ground (arith, v.known j k, v.hand w, h);
    listed = λ j. ground (arith, v.listed j, v.hand w, h);
    unique = v.unique;
    quiet = v.quiet;
    hand = λ j. ground (arith, v.hand j, h);
  }

  pub Listing-dismiss :
      (old kept : List WorkerChan) → old ++ kept ≡ ready → Listing n kept ms (dismiss old f) a
  Listing-dismiss old kept e =
      let (u, apart) = NoDup-cut old kept (rw (sym e) at v.unique) in
      record {
        known = λ j h.
            ground (arith, v.known j h, dismiss_lem old f j, has-append j old kept, v.listed j, e);
        listed =
            λ j. ground (arith, v.listed j, has-append j old kept, e, dismiss_lem old f j, apart j);
        unique = u;
        quiet = λ q. right_nil old kept (e ∙ v.quiet q);
        hand = λ j.
            ground (arith, v.hand j, v.listed j, has-append j old kept, e, dismiss_lem old f j);
      }

  pub Listing-release :
      (w : ℕ) (ch : WorkerChan)
      → ch.id ≡ w
      → f w ≡ served
      → ms ≡ false
      → w < n
      → Listing n (ready ++ (ch ∷ [])) ms (assign f w idle) a
  unfolding has
  Listing-release w ch e h m b = record {
    known = λ j k. ground (arith, v.known j k);
    listed = λ j. ground (arith, v.listed j, has-append j ready (ch ∷ []), e, h);
    unique = NoDup-end ready ch v.unique (ground (arith, v.listed w));
    quiet = λ q. absurd cc;
    hand = λ j. ground (arith, v.hand j, h);
  }

-- A worker that goes from `p` to `q` changes the counts by the weights of the two.
pub record Moved (n : ℕ) (f : ℕ → Status) (p q : Status) (g : ℕ → Status) : Type 0 where
  pub alive : tally alive n g + alive p ≡ tally alive n f + alive q
  pub conns : tally conns n g + conns p ≡ tally conns n f + conns q
  pub busy : tally busy n g + busy p ≡ tally busy n f + busy q

module _ {n : ℕ} {f : ℕ → Status} where
  pub assign-Moved : (w : ℕ) (p q : Status) → w < n → f w ≡ p → Moved n f p q (assign f w q)
  assign-Moved w p q h e = record {
    alive = rw e at (tally-assign alive n w f q h);
    conns = rw e at (tally-assign conns n w f q h);
    busy = rw e at (tally-assign busy n w f q h);
  }

  pub dismiss-Moved :
      (old : List WorkerChan)
      → ((w : ℕ) → has w old ≡ true → f w ≡ idle)
      → Moved n f idle obsolete (dismiss old f)
  dismiss-Moved old h = record {
    alive = omega (
      arith,
      tally-cong alive n (dismiss old f) f (λ w. ground (arith, dismiss_lem old f w, h w)),
    );
    conns = omega (
      arith,
      tally-cong conns n (dismiss old f) f (λ w. ground (arith, dismiss_lem old f w, h w)),
    );
    busy = omega (
      arith,
      tally-cong busy n (dismiss old f) f (λ w. ground (arith, dismiss_lem old f w, h w)),
    );
  }
