-- ===== src/Xfasthttp/Server/Valid.antt =====
-- What holds of a state of xfasthttp/server.go, and the steps of a worker that keep it.
use srcrd.Prelude.{
  ℕ, ◌+◌, ◌*◌, ◌%◌, ◌^◌, ◌<◌, ◌≡◌, ◌≢◌, sym, ap, ◌∙◌, true, false, List, ◌++◌, arith,
}
use srcrd.Threads.{assign}
use srcrd.Xfasthttp.WorkerPool.{WorkerChan}
use srcrd.Xfasthttp.Server.{Status, absent, idle, Acceptor, System}
use srcrd.Xfasthttp.Server.Inv.{
  has, has-append, is_idle, is_chosen, hands, alive, conns, busy, Listing, Numbers,
}
use srcrd.Xfasthttp.Server.Steps.{inside, Listing-assign, assign-Moved}

pub record IsValid (n : ℕ) (s : System) : Type 0 where
  pub lists : Listing n s.wp.ready s.wp.must_stop s.status s.acceptor
  pub numbers :
      Numbers n s.wp.workers_count s.wp.max_workers_count s.status s.acceptor s.open_conns
        s.concurrency
  pub sized : s.wp.max_workers_count ≡ 256 * 1024

pub no_hands :
    (a b : Acceptor) → a ≡ b → ((w : ℕ) → hands b w ≡ false) → (w : ℕ) → hands a w ≡ false
no_hands a b e h w = ap (λ q. hands q w) e ∙ h w

pub member_idle :
    {n : ℕ} {s : System} (v : IsValid n s) (old kept : List WorkerChan)
    → old ++ kept ≡ s.wp.ready
    → (w : ℕ) → has w old ≡ true
    → s.status w ≡ idle
member_idle {s = s} v old kept e w h = ground (arith, v.lists.listed w, has-append w old kept, e)

module _ {n : ℕ} {s : System} (v : IsValid n s) where
  open v use {lists, numbers}

  -- One worker goes from `p` to `q`, and the counters with it.
  pub worker_step :
      (w : ℕ) (p q : Status) (o c : ℕ)
      → s.status w ≡ p
      → p ≢ absent
      → is_idle p ≡ is_idle q
      → is_chosen p ≡ is_chosen q
      → alive p ≡ alive q
      → (o + conns p) % 2 ^ 32 ≡ (s.open_conns + conns q) % 2 ^ 32
      → o < 2 ^ 32
      → (c + busy p) % 2 ^ 32 ≡ (s.concurrency + busy q) % 2 ^ 32
      → c < 2 ^ 32
      → IsValid n (record s { status = assign s.status w q; open_conns = o; concurrency = c })
  worker_step w p q o c e na i ch al oe ob ce cb =
      let lt = inside lists w (λ z. na (sym e ∙ z)) in
      let m = assign-Moved {n = n} {f = s.status} w p q lt e in
      record {
        lists = Listing-assign lists w p q lt e i ch;
        numbers = record {
          counted = omega (arith, numbers.counted, m.alive, al);
          bound = numbers.bound;
          opened = omega (arith, numbers.opened, m.conns);
          served = omega (arith, numbers.served, m.busy);
        };
        sized = v.sized;
      }
