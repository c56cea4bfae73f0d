-- ===== src/Run/Keeps.antt =====
-- What `atomicEnd` of src/include/xrun.h leaves of a process, and what it does to the shared bytes.
use grace.Prelude.{◌≡◌, refl, ap, sym, ◌∙◌, Bool, true, false, Bool-cases, inl, inr, arith}
use grace.Result.{ok, >>=-eq-ok}
use grace.Memory.{Shared, Memory}
use grace.Memory
use grace.Memory.Commits.{Free}
use grace.Io
use grace.Transaction.{Program, finish, image, run, Runs, Started}
use grace.Transaction.Serial.{commit-run, refused_commit}
use grace.Run.{
  Run, CommitResult, Flow, goes_on, rolls_back, wait_pred, after_try, atomic_commit, atomic_end,
  atomic_end_with, abort,
}
use grace.Run.Order.{AfterTry, went, refused, atomic_end-Ends, touched_commit}

after_try-tid :
    (s : Shared) (m : Memory) (r : Run) (b : Bool) (z : CommitResult × Shared × Run)
    → after_try s m r b ≡ ok z
    → z.2.tid ≡ r.tid
unfolding after_try
after_try-tid s m r false z e =
    (let same : record r { memory = m } ≡ z.2 = cc in sym (ap (λ (x : Run). x.tid) same))
after_try-tid s m r true z e =
    let ((events, files), _, e₂) = >>=-eq-ok (Io.commit r.files) _ e in ground (arith, e₂)

commit_tid :
    (s : Shared) (r : Run) (z : CommitResult × Shared × Run)
    → atomic_commit s r ≡ ok z
    → z.2.tid ≡ r.tid
unfolding atomic_commit wait_pred
commit_tid s r z e = elim (Bool-cases (Memory.is_nop r.memory)) [
  | inl n ↦
      let same : record r { memory = Memory.update_all r.memory } ≡ z.2 =
        (let e' = rw (n, atomic_commit) at e in cc) in
      sym (ap (λ (x : Run). x.tid) same)
  | inr n ↦
      let (y, _, e₂) = >>=-eq-ok (Memory.try_to_commit s r.memory) _ (touched_commit s r z n e) in
      after_try-tid y.1 y.2 (wait_pred r) y.0 z e₂ ∙ (ground arith)
]

end_with-tid : (c : CommitResult) (r : Run) → (atomic_end_with c r).1.tid ≡ r.tid
unfolding atomic_end_with abort
end_with-tid CommitResult.failed r = refl
end_with-tid CommitResult.succeeded r = refl
end_with-tid CommitResult.optimized r = refl

-- The process id stays, whichever way the transaction ends.
pub atomic_end-tid :
    (s s' : Shared) (r r' : Run) (f : Flow) → atomic_end s r ≡ ok (f, s', r') → r'.tid ≡ r.tid
unfolding atomic_end
atomic_end-tid s s' r r' f e =
    let (z, e₁, e₂) = >>=-eq-ok (atomic_commit s r) _ e in
    let same : (atomic_end_with z.0 z.2).1 ≡ r' = cc in
    ap (λ (x : Run). x.tid) (sym same) ∙ end_with-tid z.0 z.2 ∙ commit_tid s r z e₁

went_effect :
    {p : Program} {m₀ : Memory} {s s₁ s' : Shared} {m m₁ : Memory} {r r₁ : Run} {c : CommitResult}
    {done : Bool}
    → Started m₀
    → Runs p m₀ s m finish
    → Free s
    → Memory.try_to_commit s m ≡ ok (done, s₁, m₁)
    → AfterTry s₁ m₁ r c s' r₁ done
    → goes_on ≡ (atomic_end_with c r₁).0
    → image s' ≡ run p (image s)
unfolding atomic_end_with
went_effect b ran free tried (went events c same memory sending log) flow =
    ap image same ∙ commit-run b ran free tried
went_effect b ran free tried (refused c same memory files log pred) flow =
    let f = rw c at flow in cc

-- A transaction that touched something and went on has changed the shared bytes as its program does
-- alone.
pub atomic_end-run :
    {p : Program} {m₀ : Memory} (s s' : Shared) (r r' : Run)
    → Started m₀
    → Runs p m₀ s r.memory finish
    → Free s
    → Memory.is_nop r.memory ≡ false
    → atomic_end s r ≡ ok (goes_on, s', r')
    → image s' ≡ run p (image s)
atomic_end-run s s' r r' b ran free n e =
    let w = atomic_end-Ends s s' r r' goes_on n e in went_effect b ran free w.tried w.after w.flow

rolled_effect :
    {p : Program} {m₀ : Memory} {s s₁ s' : Shared} {m m₁ : Memory} {r r₁ : Run} {c : CommitResult}
    {done : Bool}
    → Started m₀
    → Runs p m₀ s m finish
    → Free s
    → Memory.try_to_commit s m ≡ ok (done, s₁, m₁)
    → AfterTry s₁ m₁ r c s' r₁ done
    → rolls_back ≡ (atomic_end_with c r₁).0
    → (s' ≡ s) × ((atomic_end_with c r₁).1.pred ≡ r.pred)
unfolding atomic_end_with abort
rolled_effect b ran free tried (went events c same memory sending log) flow =
    let f = rw c at flow in cc
rolled_effect b ran free tried (refused c same memory files log pred) flow =
    (same ∙ refused_commit b ran free tried, rw c pred)

-- One that was rolled back has changed neither the shared files nor the predecessor.
pub atomic_end-same :
    {p : Program} {m₀ : Memory} (s s' : Shared) (r r' : Run)
    → Started m₀
    → Runs p m₀ s r.memory finish
    → Free s
    → Memory.is_nop r.memory ≡ false
    → atomic_end s r ≡ ok (rolls_back, s', r')
    → (s' ≡ s) × (r'.pred ≡ r.pred)
unfolding wait_pred
atomic_end-same s s' r r' b ran free n e =
    let w = atomic_end-Ends s s' r r' rolls_back n e in
    let (same, kept) = rolled_effect b ran free w.tried w.after w.flow in
    (same, ap (λ (x : Run). x.pred) w.result ∙ kept ∙ (ground arith))
