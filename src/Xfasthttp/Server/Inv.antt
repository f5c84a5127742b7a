-- ===== src/Xfasthttp/Server/Inv.antt =====
-- How the lists and the counters of xfasthttp/workerpool.go and server.go stand to the workers.
use srcrd.Prelude.{
  ℕ, ◌+◌, ◌%◌, ◌^◌, ◌≤◌, ◌≡◌, refl, Bool, true, false, ◌||◌, List, [], ◌∷◌, ◌++◌, arith, ◌==◌,
  if◌then◌else◌,
}
use srcrd.Threads.{assign, tally}
use srcrd.Xfasthttp.WorkerPool.{WorkerChan}
use srcrd.Xfasthttp.Server.{
  Status, absent, idle, chosen, given, serving, cleaning, obsolete, Acceptor, accepting, accepted,
  handing, refused, closing, returned, unwinding, panicked, dismiss,
}

-- Whether the channel of worker `w` is in a list.
unfoldable pub has : ℕ → List WorkerChan → Bool
has w [] = false
has w (x ∷ xs) = x.id == w || has w xs

abbrev pub NoDup : List WorkerChan → Type 0
NoDup [] = Unit
NoDup (x ∷ xs) = (has x.id xs ≡ false) × NoDup xs

pub has-append : (w : ℕ) (xs ys : List WorkerChan) → has w (xs ++ ys) ≡ (has w xs || has w ys)
unfolding has
has-append w [] ys = refl
has-append w (x ∷ xs) ys = ground (arith, has-append w xs ys)

-- A list without repetition, cut in two.
pub NoDup-cut :
    (xs ys : List WorkerChan)
    → NoDup (xs ++ ys)
    → NoDup ys × ((w : ℕ) → has w xs ≡ true → has w ys ≡ false)
unfolding has
NoDup-cut [] ys u = (u, λ w h. absurd cc)
NoDup-cut (x ∷ xs) ys u =
    let (v, apart) = NoDup-cut xs ys u.1 in
    (v, λ w h. ground (arith, apart w, has-append x.id xs ys, u.0))

pub NoDup-front :
    (xs : List WorkerChan) (w : WorkerChan)
    → NoDup (xs ++ (w ∷ []))
    → NoDup xs × (has w.id xs ≡ false)
unfolding has
NoDup-front [] w u = (tt, refl)
NoDup-front (x ∷ xs) w u =
    let (v, apart) = NoDup-front xs w u.1 in
    ground (arith, v, apart, has-append x.id xs (w ∷ []), u.0)

pub NoDup-end :
    (xs : List WorkerChan) (w : WorkerChan)
    → NoDup xs
    → has w.id xs ≡ false
    → NoDup (xs ++ (w ∷ []))
unfolding has
NoDup-end [] w u h = (refl, tt)
NoDup-end (x ∷ xs) w u h =
    (ground (arith, has-append x.id xs (w ∷ [])), NoDup-end xs w u.1 (ground arith))

pub dismiss_lem :
    (ws : List WorkerChan) (f : ℕ → Status) (w : ℕ)
    → dismiss ws f w ≡ (if has w ws then obsolete else f w)
unfolding dismiss has
dismiss_lem [] f w = refl
dismiss_lem (x ∷ xs) f w = ground (arith, dismiss_lem xs (assign f x.id obsolete) w)

abbrev pub is_idle : Status → Bool
is_idle idle = true
is_idle _ = false

abbrev pub is_chosen : Status → Bool
is_chosen chosen = true
is_chosen _ = false

abbrev pub hands : Acceptor → ℕ → Bool
hands (handing v) w = v == w
hands _ w = false

-- The worker has a goroutine; a connection that is counted in `open`; one counted in `concurrency`.
abbrev pub alive : Status → ℕ
alive absent = 0
alive _ = 1

abbrev pub conns : Status → ℕ
conns chosen = 1
conns given = 1
conns serving = 1
conns _ = 0

abbrev pub busy : Status → ℕ
busy serving = 1
busy cleaning = 1
busy _ = 0

-- What `Serve` itself counts in `open`: its wait, and a connection that no worker has yet.
abbrev pub own : Acceptor → ℕ
own accepting = 1
own accepted = 2
own (handing v) = 1
own refused = 2
own closing = 1
own returned = 0
own unwinding = 1
own panicked = 0

-- The list `ready` holds the idle workers, each once, and none after `Stop`; the acceptor hands its
-- connection to the one worker that it has chosen.
pub record Listing (n : ℕ) (ready : List WorkerChan) (must_stop : Bool) (f : ℕ → Status)
    (a : Acceptor) : Type 0 where
  pub known : (w : ℕ) → n ≤ w → f w ≡ absent
  pub listed : (w : ℕ) → has w ready ≡ is_idle (f w)
  pub unique : NoDup ready
  pub quiet : must_stop ≡ true → ready ≡ []
  pub hand : (w : ℕ) → is_chosen (f w) ≡ hands a w

pub record Numbers (n count max : ℕ) (f : ℕ → Status) (a : Acceptor) (open_conns concurrency : ℕ)
    : Type 0 where
  pub counted : count ≡ tally alive n f
  pub bound : count ≤ max
  pub opened : open_conns ≡ (own a + tally conns n f) % 2 ^ 32
  pub served : concurrency ≡ tally busy n f % 2 ^ 32
