-- ===== src/Netpoll/Wait.antt =====
-- netpoll/netpoll3.go: one goroutine that waits in `poll_runtime_pollWait` for one mode of a descriptor,
-- and any number of threads that unblock it, an atomic access at a time.
pub mod Inv
pub mod Steps
pub mod Safety
mod Tests
use srcrd.Prelude.{
  ℕ, suc, ◌+◌, ◌^◌, ◌≤◌, ◌<◌, ◌≡◌, ◌≢◌, ◌⊎◌, Bool, true, false, ◌&&◌, ◌||◌, Option, none, some,
  ◌==◌, if◌then◌else◌,
}
use srcrd.Threads.{assign}

-- The values of `rg` and `wg` besides the pointers to goroutines, which are above.
abbrev pub pd_nil : ℕ
pd_nil = 0

abbrev pub pd_ready : ℕ
pd_ready = 1

abbrev pub pd_wait : ℕ
pd_wait = 2

-- `pollDesc`, as far as it makes errors; a deadline has expired if it is negative.
pub record PollDesc : Type 0 where
  pub closing : Bool
  pub everr : Bool
  pub rd_expired : Bool
  pub wd_expired : Bool

abbrev pub poll_no_error : ℕ
poll_no_error = 0

abbrev pub poll_err_closing : ℕ
poll_err_closing = 1

abbrev pub poll_err_timeout : ℕ
poll_err_timeout = 2

abbrev pub poll_err_not_pollable : ℕ
poll_err_not_pollable = 3

abbrev pub mode_r : ℕ
mode_r = b'r'

abbrev pub mode_w : ℕ
mode_w = b'w'

-- `netpollcheckerr`
abbrev pub check_err : PollDesc → ℕ → ℕ
check_err pd mode =
    if pd.closing
    then poll_err_closing
    else if ((mode == mode_r) && pd.rd_expired) || ((mode == mode_w) && pd.wd_expired)
    then poll_err_timeout
    else if (mode == mode_r) && pd.everr
    then poll_err_not_pollable
    else poll_no_error

-- `netpollblockcommit`, of the Go runtime, for the goroutine at `g`: it parks and the semaphore gets a
-- new value, or it does not park.
pub record IsDocumented (commit : ℕ → ℕ → Option ℕ) : Type 0 where
  -- "the goroutine commits to park by changing the state to G pointer"
  pub parks : (g : ℕ) → commit g pd_wait ≡ some g
  -- "or, alternatively, concurrent io notification changes the state to pdReady, or, alternatively,
  -- concurrent timeout/close changes the state to nil"
  pub refuses : (g s : ℕ) → s ≢ pd_wait → commit g s ≡ none

-- Where the goroutine stands.
pub data Waiter : Type 0 where
  outside : Waiter
  blocking : Waiter  -- in netpollblock, before it loads the semaphore
  loaded : (old : ℕ) → Waiter  -- and after
  armed : Waiter  -- the semaphore is set to pdWait
  parking : Waiter  -- in gopark
  parked : Waiter
  resumed : Waiter  -- before the exchange
  failed : Waiter  -- netpollblock has returned false
  double_wait corrupted : Waiter  -- throws

-- Where a thread stands that unblocks.
pub data Unblocker : Type 0 where
  idle : Unblocker
  starting : (ioready : Bool) → Unblocker  -- before it loads the semaphore
  comparing : (ioready : Bool) (old : ℕ) → Unblocker  -- before the compare-and-swap
  holding : Unblocker  -- netpollunblock has returned the goroutine, which is to be made runnable

-- `posted` counts the changes to pdReady, and `taken` how often netpollblock has returned true.
pub record System : Type 0 where
  pub pd : PollDesc
  pub gpp : ℕ
  pub waiter : Waiter
  pub unblocker : ℕ → Unblocker
  pub posted : ℕ
  pub taken : ℕ

-- `new` in netpollunblock.
abbrev pub new_value : Bool → ℕ
new_value ioready = if ioready then pd_ready else pd_nil

module _ (commit : ℕ → ℕ → Option ℕ) (g mode : ℕ) (n : ℕ) where
  -- One access of one goroutine or thread.
  pub data Step (s : System) : System → Type 0 where
    -- `poll_runtime_pollWait`; an error there returns it.
    wait_starts :
        s.waiter ≡ outside
        → check_err s.pd mode ≡ poll_no_error
        → Step s (record s { waiter = blocking })
    -- `netpollblock`
    load : s.waiter ≡ blocking → Step s (record s { waiter = loaded s.gpp })
    take_ready :
        s.waiter ≡ loaded pd_ready
        → Step s (record s { gpp = pd_nil; waiter = outside; taken = s.taken + 1 })
    throw_double :
        {old : ℕ}
        → s.waiter ≡ loaded old
        → old ≢ pd_ready
        → old ≢ pd_nil
        → Step s (record s { waiter = double_wait })
    arm :
        s.waiter ≡ loaded pd_nil
        → s.gpp ≡ pd_nil
        → Step s (record s { gpp = pd_wait; waiter = armed })
    arm_lost : s.waiter ≡ loaded pd_nil → s.gpp ≢ pd_nil → Step s (record s { waiter = blocking })
    recheck_parks :
        s.waiter ≡ armed
        → check_err s.pd mode ≡ poll_no_error
        → Step s (record s { waiter = parking })
    recheck_fails :
        s.waiter ≡ armed
        → check_err s.pd mode ≢ poll_no_error
        → Step s (record s { waiter = resumed })
    park :
        {v : ℕ}
        → s.waiter ≡ parking
        → commit g s.gpp ≡ some v
        → Step s (record s { gpp = v; waiter = parked })
    park_refused :
        s.waiter ≡ parking → commit g s.gpp ≡ none → Step s (record s { waiter = resumed })
    exchange_ready :
        s.waiter ≡ resumed
        → s.gpp ≡ pd_ready
        → Step s (record s { gpp = pd_nil; waiter = outside; taken = s.taken + 1 })
    exchange_false :
        s.waiter ≡ resumed
        → s.gpp ≢ pd_ready
        → s.gpp ≤ pd_wait
        → Step s (record s { gpp = pd_nil; waiter = failed })
    throw_corrupted :
        s.waiter ≡ resumed
        → pd_wait < s.gpp
        → Step s (record s { gpp = pd_nil; waiter = corrupted })
    -- The loop of `poll_runtime_pollWait`.
    return_error :
        s.waiter ≡ failed
        → check_err s.pd mode ≢ poll_no_error
        → Step s (record s { waiter = outside })
    retry :
        s.waiter ≡ failed
        → check_err s.pd mode ≡ poll_no_error
        → Step s (record s { waiter = blocking })
    -- A timeout, a close or a scan error, which stores and then unblocks; and an io notification.
    store_then_unblock :
        {i : ℕ} (pd : PollDesc) (ioready : Bool)
        → i < n
        → s.unblocker i ≡ idle
        → Step s (record s { pd = pd; unblocker = assign s.unblocker i (starting ioready) })
    -- A store that takes the errors away, such as that of a new deadline.
    store_no_error :
        (pd : PollDesc) → check_err pd mode ≡ poll_no_error → Step s (record s { pd = pd })
    -- `netpollunblock`
    nothing_to_do :
        {i : ℕ} {ioready : Bool}
        → i < n
        → s.unblocker i ≡ starting ioready
        → (s.gpp ≡ pd_ready) ⊎ ((s.gpp ≡ pd_nil) × (ioready ≡ false))
        → Step s (record s { unblocker = assign s.unblocker i idle })
    compare :
        {i : ℕ} {ioready : Bool}
        → i < n
        → s.unblocker i ≡ starting ioready
        → s.gpp ≢ pd_ready
        → (s.gpp ≢ pd_nil) ⊎ (ioready ≡ true)
        → Step s (record s { unblocker = assign s.unblocker i (comparing ioready s.gpp) })
    swap_lost :
        {i : ℕ} {ioready : Bool} {old : ℕ}
        → i < n
        → s.unblocker i ≡ comparing ioready old
        → s.gpp ≢ old
        → Step s (record s { unblocker = assign s.unblocker i (starting ioready) })
    swap_nobody :
        {i : ℕ} {ioready : Bool} {old : ℕ}
        → i < n
        → s.unblocker i ≡ comparing ioready old
        → s.gpp ≡ old
        → (old ≡ pd_wait) ⊎ (old ≡ pd_nil)
        → Step s (record s {
          gpp = new_value ioready;
          unblocker = assign s.unblocker i idle;
          posted = s.posted + new_value ioready;
        })
    swap_goroutine :
        {i : ℕ} {ioready : Bool} {old : ℕ}
        → i < n
        → s.unblocker i ≡ comparing ioready old
        → s.gpp ≡ old
        → old ≢ pd_wait
        → old ≢ pd_nil
        → Step s (record s {
          gpp = new_value ioready;
          unblocker = assign s.unblocker i holding;
          posted = s.posted + new_value ioready;
        })
    -- The scheduler runs what a poll returns.
    make_runnable :
        {i : ℕ}
        → i < n
        → s.unblocker i ≡ holding
        → s.waiter ≡ parked
        → Step s (record s { waiter = resumed; unblocker = assign s.unblocker i idle })

  pub data Reach (pd : PollDesc) : System → Type 0 where
    start : Reach pd (record {
      pd = pd;
      gpp = pd_nil;
      waiter = outside;
      unblocker = λ _. idle;
      posted = 0;
      taken = 0;
    })
    after : {s t : System} → Reach pd s → Step s t → Reach pd t
