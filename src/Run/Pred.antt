-- ===== src/Run/Pred.antt =====
-- The predecessor of a process after `atomicEnd` of src/include/xrun.h has gone on.
use grace.Prelude.{◌≡◌, ap, sym, ◌⊎◌, inl, inr, Bool, true, false, Bool-cases}
use grace.Result.{ok}
use grace.Memory.{Shared, Memory}
use grace.Memory
use grace.Run.{Run, CommitResult, goes_on, atomic_end, atomic_end_with}
use grace.Run.Order.{atomic_end-nop, AfterTry, went, refused, atomic_end-Ends}

went_pred :
    {s s' : Shared} {m : Memory} {r r' r₁ : Run} {c : CommitResult} {done : Bool}
    → AfterTry s m r c s' r₁ done
    → goes_on ≡ (atomic_end_with c r₁).0
    → r' ≡ (atomic_end_with c r₁).1
    → r'.pred ≡ 0
unfolding atomic_end_with
went_pred (went events c same memory sending log) flow result = ap (λ x. x.pred) (rw c at result)
went_pred (refused c same memory files log pred) flow result = let f = rw c at flow in cc

-- It is forgotten after a commit, and kept by a transaction that touched nothing.
pub atomic_end-pred :
    (s s' : Shared) (r r' : Run)
    → atomic_end s r ≡ ok (goes_on, s', r')
    → ((Memory.is_nop r.memory ≡ true) × (r'.pred ≡ r.pred))
      ⊎ ((Memory.is_nop r.memory ≡ false) × (r'.pred ≡ 0))
atomic_end-pred s s' r r' e = elim (Bool-cases (Memory.is_nop r.memory)) [
  | inl n ↦
      let same : record r { memory = Memory.update_all r.memory } ≡ r' =
        cc (atomic_end-nop s r n) in
      inl (n, sym (ap (λ x. x.pred) same))
  | inr n ↦
      let w = atomic_end-Ends s s' r r' goes_on n e in inr (n, went_pred w.after w.flow w.result)
]
