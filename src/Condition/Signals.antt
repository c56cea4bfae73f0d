-- ===== src/Condition/Signals.antt =====
-- When a call of `gracewait` of src/source/libgrace.cpp returns.
use grace.Prelude.{ℕ, ◌<◌, ◌≡◌, refl, ◌⊎◌, inl, inr, Bool, true, false, arith}
use grace.Condition.{
  Control, outside, to_set, to_test, to_clear, has_cleared, Condition, move, start, Step,
  calls_signal, sets_flag, signal_returns, signal_rolls_back, calls_wait, finds_set, sleeps,
  clears_flag, wait_returns, wait_rolls_back, Reach, here, next,
}

-- A process that waits has not seen the flag set, and none of those that do has returned yet.
abbrev pub has_seen : Control → Bool
has_seen to_clear = true
has_seen has_cleared = true
has_seen _ = false

-- The flag has been set `n` times and `m` waits have returned; the flag is down, and no process has seen
-- it set.
pub record Down (n m : ℕ) (σ : Condition) : Type 0 where
  pub sets : σ.sets ≡ n
  pub returned : σ.returned ≡ m
  pub down : σ.flag ≡ false
  pub unseen : (j : ℕ) → has_seen (σ.control j) ≡ false

module _ {n m : ℕ} {σ : Condition} (i : ℕ) (d : Down n m σ) where
  Down-move : (c : Control) → has_seen c ≡ false → Down n m (move i c σ)
  Down-move c e = record {
    sets = d.sets;
    returned = d.returned;
    down = d.down;
    unseen = λ j. ground (arith, d.unseen j, e);
  }

  saw : (c : Control) → σ.control i ≡ c → has_seen c ≡ false
  saw c e = rw e at (d.unseen i)

  -- A step leaves the flag down and nothing seen, or sets the flag once more.
  Step-Down : {τ : Condition} → Step i σ τ → (n < τ.sets) ⊎ Down n m τ
  Step-Down (calls_signal e) = inr (Down-move to_set refl)
  Step-Down (sets_flag e) = inl (omega (arith, d.sets))
  Step-Down (signal_returns e) = inr (Down-move outside refl)
  Step-Down (signal_rolls_back e) = inr (Down-move to_set refl)
  Step-Down (calls_wait e) = inr (Down-move to_test refl)
  Step-Down (finds_set e f) = (let both : true ≡ false = cc in cc)
  Step-Down (sleeps e f) = inr (Down-move to_test refl)
  Step-Down (clears_flag e) = (let both : true ≡ false = saw to_clear e in cc)
  Step-Down (wait_returns e) = (let both : true ≡ false = saw has_cleared e in cc)
  Step-Down (wait_rolls_back e) = inr (Down-move to_test refl)

Step-sets : {n i : ℕ} {σ τ : Condition} → n < σ.sets → Step i σ τ → n < τ.sets
Step-sets h (calls_signal e) = h
Step-sets h (sets_flag e) = omega (arith, h)
Step-sets h (signal_returns e) = h
Step-sets h (signal_rolls_back e) = h
Step-sets h (calls_wait e) = h
Step-sets h (finds_set e f) = h
Step-sets h (sleeps e f) = h
Step-sets h (clears_flag e) = h
Step-sets h (wait_returns e) = h
Step-sets h (wait_rolls_back e) = h

Reach-Down : {n m : ℕ} {σ τ : Condition} → Down n m σ → Reach σ τ → (n < τ.sets) ⊎ Down n m τ
Reach-Down d here = inr d
Reach-Down d (next i r s) = elim (Reach-Down d r) [
  | inl h ↦ inl (Step-sets h s)
  | inr d' ↦ Step-Down i d' s
]

no_more_sets : {A : Type 0} {n k : ℕ} → n < k → k ≡ n → A
no_more_sets h e = let none_such : ⊥ = omega (arith, h, e) in elim none_such [ ]

still-Down : {n m : ℕ} {σ τ : Condition} → Down n m σ → Reach σ τ → τ.sets ≡ n → Down n m τ
still-Down d r e = elim (Reach-Down d r) [ inl h ↦ no_more_sets h e | inr d' ↦ d' ]

-- As long as the flag has never been set, no call of `gracewait` has returned, and none has seen it set.
no_early_return :
    {τ : Condition}
    → Reach start τ
    → τ.sets ≡ 0
    → (τ.returned ≡ 0) × ((j : ℕ) → has_seen (τ.control j) ≡ false)
no_early_return r e =
    let first : Down 0 0 start = record {
      sets = refl;
      returned = refl;
      down = refl;
      unseen = λ j. refl;
    } in
    let d = still-Down first r e in (d.returned, d.unseen)
