-- ===== src/Run/Irrevocable.antt =====
-- `ensureIrrevocable` of src/include/xrun.h, and the calls behind it, in a running transaction.
use grace.Prelude.{◌≡◌, sym, ◌∙◌, ◌⊎◌, inl, inr, Bool, true, false, none, Bool-cases}
use mathlib.Core.Bool.{false≢true}
use grace.Result.{ok}
use grace.Memory.{Shared, Memory}
use grace.Memory.Commits.{
  Free, passes, lock_both, own_both, passes-AllCurrent, released, is_consistent_lem,
}
use grace.Persist.Isolation.{AllCurrent}
use grace.Transaction.{Program, Runs, Started}
use grace.Transaction.Steps.{Runs-Follows}
use grace.Run.{Run, rolls_back, wait_pred, after_check, abort, ensure_irrevocable}
use grace.Run.Calls.{Call, performed, after_ensure, forward}

-- The process after the wait and the check.
abbrev pub checked : Run → Run
checked r = record (wait_pred r) { memory = released r.memory }

ensure_irrevocable_lem :
    (s : Shared) (r : Run)
    → Free s
    → ensure_irrevocable s r
      ≡ ok (after_check s (checked r) (passes (lock_both s) (own_both r.memory)))
unfolding ensure_irrevocable
ensure_irrevocable_lem s r f = rw (is_consistent_lem s r.memory f)

forward_lem :
    {B : Type 0} (call : Call B) (s : Shared) (r : Run) (b : Bool)
    → ensure_irrevocable s r ≡ ok (after_check s (checked r) b)
    → forward call s r
      ≡ after_ensure call
          (after_check s (checked r) b).0
          (after_check s (checked r) b).1
          (after_check s (checked r) b).2
unfolding forward
forward_lem call s r b e = rw e

-- In a running transaction that began with its regions apart, all pages closed and nothing recorded,
-- and with both locks free, a call of the operating system is made if and only if no page that was read
-- has a new version. If one has, nothing is asked of the system and the transaction starts afresh, with
-- its files as they were.
pub forward_ways :
    {p k : Program} {m₀ : Memory} {B : Type 0} (call : Call B) (s : Shared) (r : Run)
    → Started m₀
    → Runs p m₀ s r.memory k
    → Free s
    → ((AllCurrent s.heap r.memory.heap × AllCurrent s.globals r.memory.globals)
        × (forward call s r ≡ performed call s (checked r)))
      ⊎ ((¬ (AllCurrent s.heap r.memory.heap × AllCurrent s.globals r.memory.globals))
          × (forward call s r ≡ ok (rolls_back, s, abort (checked r), none)))
unfolding after_check after_ensure
forward_ways call s r b ran free =
    let check = passes-AllCurrent (Runs-Follows b ran).tracked in
    let e = ensure_irrevocable_lem s r free in
    elim (Bool-cases (passes (lock_both s) (own_both r.memory))) [
      | inl fine ↦ inl (check.0 fine, forward_lem call s r true (rw fine at e))
      | inr stale ↦
          inr (λ c. false≢true (sym stale ∙ check.1 c), forward_lem call s r false (rw stale at e))
    ]
