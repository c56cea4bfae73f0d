-- ===== src/Latch.antt =====
-- src/include/xlatch.h, and its use by `waitExited` and `setExited` of src/include/xthread.h: the
-- processes that wait for one thread to exit, and the thread, step by step in any order.
pub mod Safety
use grace.Prelude.{ℕ, zero, suc, ◌+◌, ◌-◌, ◌%◌, ◌<◌, ◌≡◌, Bool, true, false, if◌then◌else◌}

-- `THREAD_STATUS_LENGTH`.
abbrev pub thread_status_length : ℕ
thread_status_length = 1048576

-- The latch that stands for a process id.
unfoldable pub latch_index : ℕ → ℕ
latch_index pid = pid % thread_status_length

-- The shared state of an `xlatch`: the flag, and the value of the semaphore.
pub record Latch : Type 0 where
  pub unlatched : Bool
  pub semaphore : ℕ

-- The constructor.
unfoldable pub make : ℕ → Latch
make nwaiters = record { unlatched = false; semaphore = nwaiters }

-- `sem_post`.
unfoldable pub sem_post : Latch → Latch
sem_post l = record l { semaphore = l.semaphore + 1 }

-- What `sem_wait` does when it gets through.
unfoldable pub sem_take : Latch → Latch
sem_take l = record l { semaphore = l.semaphore - 1 }

-- How far the exiting thread is in `unlatch`.
pub data Owner : Type 0 where
  running flagged posted_once posted_twice : Owner

-- The latch and those at it. A waiter is about to call `wait`, or is in `sem_wait`, or has come out of
-- `sem_wait`, or has returned at once.
pub record System : Type 0 where
  pub latch : Latch
  pub owner : Owner
  pub arriving : ℕ
  pub asleep : ℕ
  pub woken : ℕ
  pub passed : ℕ

-- `n` processes that will wait, and a latch with the default of no waiters.
unfoldable pub start : ℕ → System
unfolding make
start n = record {
  latch = make 0;
  owner = Owner.running;
  arriving = n;
  asleep = 0;
  woken = 0;
  passed = 0;
}

-- `wait`, up to the semaphore: a waiter that finds the flag up returns, any other goes to sleep.
unfoldable pub wait : System → System
wait σ =
    if σ.latch.unlatched
    then record σ { arriving = σ.arriving - 1; passed = σ.passed + 1 }
    else record σ { arriving = σ.arriving - 1; asleep = σ.asleep + 1 }

-- The rest of `wait`, once the semaphore is up.
unfoldable pub wake : System → System
unfolding sem_take
wake σ = record σ { latch = sem_take σ.latch; asleep = σ.asleep - 1; woken = σ.woken + 1 }

-- One statement of `unlatch`.
unfoldable pub unlatch_step : Owner → Latch → Owner × Latch
unfolding sem_post
unlatch_step Owner.running l = (Owner.flagged, record l { unlatched = true })
unlatch_step Owner.flagged l = (Owner.posted_once, sem_post l)
unlatch_step Owner.posted_once l = (Owner.posted_twice, sem_post l)
unlatch_step Owner.posted_twice l = (Owner.posted_twice, l)

unfoldable pub unlatch : System → System
unfolding unlatch_step
unlatch σ = let (o, l) = unlatch_step σ.owner σ.latch in record σ { owner = o; latch = l }

pub data Step (σ : System) : System → Type 0 where
  waits : 0 < σ.arriving → Step σ (wait σ)
  wakes : 0 < σ.asleep → 0 < σ.latch.semaphore → Step σ (wake σ)
  unlatches : Step σ (unlatch σ)

pub data Reach (σ : System) : System → Type 0 where
  here : Reach σ σ
  next : {τ υ : System} → Reach σ τ → Step τ υ → Reach σ υ
