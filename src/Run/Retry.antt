-- ===== src/Run/Retry.antt =====
-- Output that is buffered by an attempt that is rolled back (`abort` of src/include/xrun.h), and by the
-- next one.
use grace.Prelude.{ℕ, ◌≡◌, refl, sym, ap, subst, ◌∙◌, Bool, true, false, List, some}
use grace.Result.{ok, undefined}
use grace.Memory.{Shared, Memory}
use grace.Memory
use grace.Io.{File, get_file}
use grace.Io
use grace.Io.Commit.{commit-write-write}
use grace.Run.{
  Run, CommitResult, rolls_back, wait_pred, after_try, atomic_end, atomic_end_with, abort,
}
use grace.Run.Order.{AfterTry, went, refused, atomic_end-Ends}
use grace.Run.Total.{wait_files, touched_end, refused_end}

denied :
    {s s' : Shared} {m : Memory} {r r₁ : Run} {c : CommitResult} {done : Bool}
    → AfterTry s m r c s' r₁ done
    → rolls_back ≡ (atomic_end_with c r₁).0
    → done ≡ false
unfolding atomic_end_with
denied (went events c same memory sending log) flow = let f = rw c at flow in cc
denied (refused c same memory files log pred) flow = refl

rolled_files :
    (s s' : Shared) (r r' : Run)
    → Memory.is_nop r.memory ≡ false
    → atomic_end s r ≡ ok (rolls_back, s', r')
    → r'.files ≡ r.files
unfolding abort
rolled_files s s' r r' n e =
    let w = atomic_end-Ends s s' r r' rolls_back n e in
    let tried =
      subst (λ b. Memory.try_to_commit s r.memory ≡ ok (b, w.s₁, w.m₁)) (denied w.after w.flow)
        w.tried in
    let same : abort (record (wait_pred r) { memory = w.m₁ }) ≡ r' =
      cc (refused_end s w.s₁ r w.m₁ n tried, e) in
    ap (λ (x : Run). x.files) (sym same) ∙ wait_files r

undefined_end :
    (s s' : Shared) (r : Run) (m : Memory)
    → Memory.is_nop r.memory ≡ false
    → Memory.try_to_commit s r.memory ≡ ok (true, s', m)
    → Io.commit r.files ≡ undefined
    → atomic_end s r ≡ undefined
unfolding atomic_end after_try
undefined_end s s' r m n tried e =
    rw (touched_end s r n, tried, ap Io.commit (wait_files r) ∙ e) refl

-- Let a transaction write to an open file once, and be rolled back. If the next attempt writes to that file
-- again, and comes to an end at which `tryToCommit` says yes, then `atomicEnd` is undefined: what the
-- first attempt wrote is still buffered, and a file with two sections cannot be sent.
pub retried_write :
    (fd : ℕ) (x y : List ℕ) (fs : List File) {f : File} (s s' s₂ s₃ : Shared) (r r' : Run)
    (m m' : Memory)
    → get_file fd fs ≡ some f
    → r.files ≡ (Io.write fd x fs).0
    → Memory.is_nop r.memory ≡ false
    → atomic_end s r ≡ ok (rolls_back, s', r')
    → Memory.is_nop m ≡ false
    → Memory.try_to_commit s₂ m ≡ ok (true, s₃, m')
    → atomic_end s₂ (record r' { memory = m; files = (Io.write fd y r'.files).0 }) ≡ undefined
retried_write fd x y fs s s' s₂ s₃ r r' m m' there wrote n e n₂ tried =
    let kept = rolled_files s s' r r' n e ∙ wrote in
    undefined_end s₂ s₃ (record r' { memory = m; files = (Io.write fd y r'.files).0 }) m' n₂ tried
      (ap (λ gs. Io.commit (Io.write fd y gs).0) kept ∙ commit-write-write fd x y fs there)
