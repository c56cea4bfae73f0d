-- ===== src/Condition.antt =====
-- The condition variables of src/source/libgrace.cpp (`gracecondinit`, `gracesignal`, `gracewait`): a
-- flag in memory that all processes share and no transaction covers. Whether a `punctuate` goes on or
-- rolls back, to the last `atomicBegin` before it, is open.
pub mod Signals
use grace.Prelude.{ℕ, suc, ◌≡◌, Bool, true, false, ◌==◌, if◌then◌else◌}

-- Where a process stands: outside of both functions, in `gracesignal` before and after the flag is set,
-- or in `gracewait` before the test, after a test that found the flag set, and after it is cleared.
pub data Control : Type 0 where
  outside to_set has_set to_test to_clear has_cleared : Control

-- The flag, the processes, how often the flag has been set, and how many calls of `gracewait` have
-- returned.
pub record Condition : Type 0 where
  pub flag : Bool
  pub control : ℕ → Control
  pub sets : ℕ
  pub returned : ℕ

abbrev pub move : ℕ → Control → Condition → Condition
move i c σ = record σ { control = λ j. if j == i then c else σ.control j }

-- `gracecondinit`, with no process in either function.
abbrev pub start : Condition
start = record { flag = false; control = λ i. outside; sets = 0; returned = 0 }

-- `p[0] = true` by process `i`.
abbrev pub set : ℕ → Condition → Condition
set i σ = move i has_set (record σ { flag = true; sets = suc σ.sets })

-- `p[0] = false` by process `i`.
abbrev pub clear : ℕ → Condition → Condition
clear i σ = move i has_cleared (record σ { flag = false })

-- The return of `gracewait`.
abbrev pub return : ℕ → Condition → Condition
return i σ = move i outside (record σ { returned = suc σ.returned })

-- A step of process `i`.
pub data Step (i : ℕ) (σ : Condition) : Condition → Type 0 where
  calls_signal : σ.control i ≡ outside → Step i σ (move i to_set σ)
  sets_flag : σ.control i ≡ to_set → Step i σ (set i σ)
  signal_returns : σ.control i ≡ has_set → Step i σ (move i outside σ)
  signal_rolls_back : σ.control i ≡ has_set → Step i σ (move i to_set σ)
  calls_wait : σ.control i ≡ outside → Step i σ (move i to_test σ)
  finds_set : σ.control i ≡ to_test → σ.flag ≡ true → Step i σ (move i to_clear σ)
  sleeps : σ.control i ≡ to_test → σ.flag ≡ false → Step i σ (move i to_test σ)
  clears_flag : σ.control i ≡ to_clear → Step i σ (clear i σ)
  wait_returns : σ.control i ≡ has_cleared → Step i σ (return i σ)
  wait_rolls_back : σ.control i ≡ has_cleared → Step i σ (move i to_test σ)

pub data Reach (σ : Condition) : Condition → Type 0 where
  here : Reach σ σ
  next : {τ υ : Condition} (i : ℕ) → Reach σ τ → Step i τ υ → Reach σ υ
