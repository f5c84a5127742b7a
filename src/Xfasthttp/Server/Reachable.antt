-- ===== src/Xfasthttp/Server/Reachable.antt =====
-- The lists and the counters of xfasthttp/server.go and workerpool.go are in step with the workers in
-- every reachable state.
use srcrd.Prelude.{ℕ, ◌≡◌, refl, sym, ap, ◌∙◌, [], ◌++◌, append-nil, arith}
use srcrd.Threads.{tally-const}
use srcrd.Xfasthttp.WorkerPool.{leave}
use srcrd.Xfasthttp.WorkerPool.Outcome.{
  get_ch_reuse, get_ch_create, get_ch_refuse, release_true, release_false, stop_lem, clean_cut,
}
use srcrd.Xfasthttp.Server.{
  absent, idle, chosen, given, serving, cleaning, served, obsolete, leaving, accepting, accepted,
  refused, closing, returned, unwinding, panicked, System, add32, minus_one, init, Step, accept,
  serve_reuse, serve_create, serve_refuse, send, refuse_panic, serve_unwind, listener_error,
  serve_return, receive, close_open, close_concurrency, release_ready, release_stop, clean_idle,
  receive_nil, leave_pool, Reach, start, after,
}
use srcrd.Xfasthttp.Server.Inv.{has, alive, conns, busy, own}
use srcrd.Xfasthttp.Server.Steps.{
  inside, last_idle, Listing-acceptor, Listing-choose, Listing-create, Listing-send,
  Listing-dismiss, Listing-release, assign-Moved, dismiss-Moved,
}
use srcrd.Xfasthttp.Server.Valid.{IsValid, no_hands, member_idle, worker_step}

pub Step-IsValid : {n : ℕ} {s t : System} → Step n s t → IsValid n s → IsValid n t
unfolding leave
Step-IsValid {n} {s} (accept h) v = record {
  lists =
      Listing-acceptor v.lists accepted (no_hands s.acceptor accepting h (λ _. refl)) (λ _. refl);
  numbers = record {
    counted = v.numbers.counted;
    bound = v.numbers.bound;
    opened = omega (arith, v.numbers.opened, ap own h);
    served = v.numbers.served;
  };
  sized = v.sized;
}
Step-IsValid {n} {s} (serve_reuse {ch} {wp} h g) v =
    let (rest, e, q) = get_ch_reuse s.wp wp ch g in
    let i = last_idle v.lists rest ch e in
    let m =
      assign-Moved {n = n} {f = s.status} ch.id idle chosen
        (inside v.lists ch.id (λ z. absurd (ground arith))) i in
    rw q (record {
      lists = Listing-choose v.lists rest ch e h;
      numbers = record {
        counted = omega (arith, v.numbers.counted, m.alive);
        bound = v.numbers.bound;
        opened = omega (arith, v.numbers.opened, m.conns, ap own h);
        served = omega (arith, v.numbers.served, m.busy);
      };
      sized = v.sized;
    })
Step-IsValid {n} {s} (serve_create {w} {wp} h g lt e) v =
    let (room, q) = get_ch_create s.wp wp g in
    let m = assign-Moved {n = n} {f = s.status} w absent chosen lt e in
    rw q (record {
      lists = Listing-create v.lists w lt e h;
      numbers = record {
        counted = omega (arith, v.numbers.counted, m.alive);
        bound = omega (arith, room);
        opened = omega (arith, v.numbers.opened, m.conns, ap own h);
        served = omega (arith, v.numbers.served, m.busy);
      };
      sized = v.sized;
    })
Step-IsValid {n} {s} (serve_refuse {wp} h g) v = rw (get_ch_refuse s.wp wp g) (record {
  lists = Listing-acceptor v.lists refused (no_hands s.acceptor accepted h (λ _. refl)) (λ _. refl);
  numbers = record {
    counted = v.numbers.counted;
    bound = v.numbers.bound;
    opened = omega (arith, v.numbers.opened, ap own h);
    served = v.numbers.served;
  };
  sized = v.sized;
})
Step-IsValid {n} {s} (send {w} h) v =
    let c : s.status w ≡ chosen = ground (arith, v.lists.hand w, h) in
    let m =
      assign-Moved {n = n} {f = s.status} w chosen given
        (inside v.lists w (λ z. absurd (ground arith))) c in
    record {
      lists = Listing-send v.lists w h;
      numbers = record {
        counted = omega (arith, v.numbers.counted, m.alive);
        bound = v.numbers.bound;
        opened = omega (arith, v.numbers.opened, m.conns, ap own h);
        served = omega (arith, v.numbers.served, m.busy);
      };
      sized = v.sized;
    }
Step-IsValid {n} {s} (refuse_panic h) v = record {
  lists =
      Listing-acceptor v.lists unwinding (no_hands s.acceptor refused h (λ _. refl)) (λ _. refl);
  numbers = record {
    counted = v.numbers.counted;
    bound = v.numbers.bound;
    opened = omega (arith, v.numbers.opened, ap own h);
    served = v.numbers.served;
  };
  sized = v.sized;
}
Step-IsValid {n} {s} (serve_unwind h) v = record {
  lists =
      Listing-acceptor v.lists panicked (no_hands s.acceptor unwinding h (λ _. refl)) (λ _. refl);
  numbers = record {
    counted = v.numbers.counted;
    bound = v.numbers.bound;
    opened = omega (arith, v.numbers.opened, ap own h);
    served = v.numbers.served;
  };
  sized = v.sized;
}
Step-IsValid {n} {s} (listener_error {old} {wp} h g) v =
    let (e, q) = stop_lem s.wp wp old g in
    let cut : old ++ [] ≡ s.wp.ready = append-nil old ∙ e in
    let m = dismiss-Moved {n = n} {f = s.status} old (member_idle v old [] cut) in
    let l = Listing-dismiss v.lists old [] cut in
    rw q (record {
      lists = record {
        known = l.known;
        listed = l.listed;
        unique = l.unique;
        quiet = λ _. refl;
        hand = λ j. l.hand j ∙ no_hands s.acceptor accepting h (λ _. refl) j;
      };
      numbers = record {
        counted = omega (arith, v.numbers.counted, m.alive);
        bound = v.numbers.bound;
        opened = omega (arith, v.numbers.opened, m.conns, ap own h);
        served = omega (arith, v.numbers.served, m.busy);
      };
      sized = v.sized;
    })
Step-IsValid {n} {s} (serve_return h) v = record {
  lists = Listing-acceptor v.lists returned (no_hands s.acceptor closing h (λ _. refl)) (λ _. refl);
  numbers = record {
    counted = v.numbers.counted;
    bound = v.numbers.bound;
    opened = omega (arith, v.numbers.opened, ap own h);
    served = v.numbers.served;
  };
  sized = v.sized;
}
Step-IsValid {n} {s} (receive {w} h) v =
    worker_step v w given serving s.open_conns (add32 s.concurrency 1) h (cc) refl refl refl refl
      (omega (arith, v.numbers.opened)) (omega arith) (omega arith)
Step-IsValid {n} {s} (close_open {w} h) v =
    worker_step v w serving cleaning (add32 s.open_conns minus_one) s.concurrency h (cc) refl refl
      refl (omega arith) (omega arith) refl (omega (arith, v.numbers.served))
Step-IsValid {n} {s} (close_concurrency {w} h) v =
    worker_step v w cleaning served s.open_conns (add32 s.concurrency minus_one) h (cc) refl refl
      refl refl (omega (arith, v.numbers.opened)) (omega arith) (omega arith)
Step-IsValid {n} {s} (release_ready {w} {wp} now h g) v =
    let (go, q) = release_true w now s.wp wp g in
    let lt = inside v.lists w (λ z. absurd (ground arith)) in
    let m = assign-Moved {n = n} {f = s.status} w served idle lt h in
    rw q (record {
      lists = Listing-release v.lists w (record { id = w; last_use_time = now }) refl h go lt;
      numbers = record {
        counted = omega (arith, v.numbers.counted, m.alive);
        bound = v.numbers.bound;
        opened = omega (arith, v.numbers.opened, m.conns);
        served = omega (arith, v.numbers.served, m.busy);
      };
      sized = v.sized;
    })
Step-IsValid {n} {s} (release_stop {w} {wp} now h g) v = rw (release_false w now s.wp wp g) (
    worker_step v w served leaving s.open_conns s.concurrency h (cc) refl refl refl refl
      (omega (arith, v.numbers.opened)) refl (omega (arith, v.numbers.served)))
Step-IsValid {n} {s} (clean_idle {old} {wp} now g) v =
    let (kept, e, q) = clean_cut now s.wp wp old g in
    let m = dismiss-Moved {n = n} {f = s.status} old (member_idle v old kept e) in
    rw q (record {
      lists = Listing-dismiss v.lists old kept e;
      numbers = record {
        counted = omega (arith, v.numbers.counted, m.alive);
        bound = v.numbers.bound;
        opened = omega (arith, v.numbers.opened, m.conns);
        served = omega (arith, v.numbers.served, m.busy);
      };
      sized = v.sized;
    })
Step-IsValid {n} {s} (receive_nil {w} h) v =
    worker_step v w obsolete leaving s.open_conns s.concurrency h (cc) refl refl refl refl
      (omega (arith, v.numbers.opened)) refl (omega (arith, v.numbers.served))
Step-IsValid {n} {s} (leave_pool {w} h) v =
    let lt = inside v.lists w (λ z. absurd (ground arith)) in
    let m = assign-Moved {n = n} {f = s.status} w leaving absent lt h in
    record {
      lists = record {
        known = λ j k. ground (arith, v.lists.known j k);
        listed = λ j. ground (arith, v.lists.listed j, h);
        unique = v.lists.unique;
        quiet = v.lists.quiet;
        hand = λ j. ground (arith, v.lists.hand j, h);
      };
      numbers = record {
        counted = omega (arith, v.numbers.counted, m.alive);
        bound = omega (arith, v.numbers.bound);
        opened = omega (arith, v.numbers.opened, m.conns);
        served = omega (arith, v.numbers.served, m.busy);
      };
      sized = v.sized;
    }

pub init-IsValid : (n : ℕ) → IsValid n init
unfolding init has
init-IsValid n = record {
  lists = record {
    known = λ w h. refl;
    listed = λ w. refl;
    unique = tt;
    quiet = λ h. refl;
    hand = λ w. refl;
  };
  numbers = record {
    counted = sym (tally-const alive n absent refl);
    bound = omega arith;
    opened = omega (arith, tally-const conns n absent refl);
    served = omega (arith, tally-const busy n absent refl);
  };
  sized = refl;
}

pub Reach-IsValid : {n : ℕ} {s : System} → Reach n s → IsValid n s
Reach-IsValid {n} start = init-IsValid n
Reach-IsValid {n} (after r st) = Step-IsValid st (Reach-IsValid r)
