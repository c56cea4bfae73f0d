-- ===== src/Latch/Safety.antt =====
-- Waiters at the latch of src/include/xlatch.h in every order of the steps.
use grace.Prelude.{ℕ, ◌+◌, ◌≤◌, ◌≡◌, refl, Bool, true, false, arith}
use grace.Latch.{
  Owner, System, start, wait, wake, unlatch, Step, waits, wakes, unlatches, Reach, here, next,
}

-- The number of posts made.
abbrev posts : Owner → ℕ
posts Owner.running = 0
posts Owner.flagged = 0
posts Owner.posted_once = 1
posts Owner.posted_twice = 2

abbrev raised : Owner → Bool
raised Owner.running = false
raised _ = true

record Inv (n : ℕ) (σ : System) : Type 0 where
  flag : σ.latch.unlatched ≡ raised σ.owner
  balance : σ.latch.semaphore + σ.woken ≡ posts σ.owner
  everyone : σ.arriving + σ.asleep + σ.woken + σ.passed ≡ n

start-Inv : (n : ℕ) → Inv n (start n)
unfolding start
start-Inv n = record { flag = refl; balance = refl; everyone = omega arith }

Step-Inv : {n : ℕ} {σ τ : System} → Step σ τ → Inv n σ → Inv n τ
unfolding wait wake unlatch
Step-Inv (waits h) v = ground arith
Step-Inv (wakes h k) v = ground arith
Step-Inv unlatches v = ground arith

Reach-Inv : {n : ℕ} {σ τ : System} → Inv n σ → Reach σ τ → Inv n τ
Reach-Inv v here = v
Reach-Inv v (next r st) = Step-Inv st (Reach-Inv v r)

-- With at most two waiters none is left behind: once the thread is through `unlatch`, the semaphore
-- is up for each waiter that still sleeps.
pub no_lost_wakeup :
    (n : ℕ) {σ : System}
    → Reach (start n) σ
    → n ≤ 2
    → σ.owner ≡ Owner.posted_twice
    → σ.asleep ≤ σ.latch.semaphore
no_lost_wakeup n {σ} r few e =
    let v : Inv n σ = Reach-Inv (start-Inv n) r in ground (arith, v.balance, v.everyone)

record Stuck (k : ℕ) (σ : System) : Type 0 where
  done : σ.owner ≡ Owner.posted_twice
  down : σ.latch.semaphore ≡ 0
  left : σ.asleep ≡ k
  flag : σ.latch.unlatched ≡ true

Step-Stuck : {k : ℕ} {σ τ : System} → Step σ τ → Stuck k σ → Stuck k τ
unfolding wait wake unlatch
Step-Stuck (waits h) v = ground arith
Step-Stuck (wakes h k) v = ground arith
Step-Stuck unlatches v = ground arith

Reach-Stuck : {k : ℕ} {σ τ : System} → Stuck k σ → Reach σ τ → Stuck k τ
Reach-Stuck v here = v
Reach-Stuck v (next r st) = Step-Stuck st (Reach-Stuck v r)

-- Two posts wake two sleepers only. If both were taken and others still sleep, those sleep for ever.
sleeps_for_ever :
    (n : ℕ) {σ τ : System}
    → Reach (start n) σ
    → σ.owner ≡ Owner.posted_twice
    → σ.woken ≡ 2
    → Reach σ τ
    → τ.asleep ≡ σ.asleep
sleeps_for_ever n {σ} r e w q =
    let v : Inv n σ = Reach-Inv (start-Inv n) r in
    let stuck : Stuck σ.asleep σ = record {
      done = e;
      down = ground (arith, v.balance);
      left = refl;
      flag = ground (arith, v.flag);
    } in
    (Reach-Stuck stuck q).left
