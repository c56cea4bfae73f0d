-- ===== src/Run/Order.antt =====
-- `atomicEnd` of src/include/xrun.h: the shared memory, the predecessor and the log afterwards.
use grace.Prelude.{
  ℕ, suc, subst, ◌≡◌, refl, ap, sym, ◌∙◌, ◌⊎◌, inl, inr, Bool, true, false, List, [], ◌∷◌, ◌++◌,
  arith,
}
use grace.Result.{Result, ok, ◌>>=◌, >>=-eq-ok}
use grace.Memory.{Shared, Memory}
use grace.Memory
use grace.Io
use grace.Io.{Event}
use grace.Run.{
  Run, waited_for, committed, sent, flushed, rolled_back, began, CommitResult, Flow, goes_on,
  rolls_back, wait_pred, after_try, atomic_commit, atomic_end, atomic_end_with, abort,
}

-- A transaction that touched nothing neither waits nor commits: the files stay as they are, the
-- process looks at them afresh, and it keeps its predecessor.
pub atomic_end-nop :
    (s : Shared) (r : Run)
    → Memory.is_nop r.memory ≡ true
    → atomic_end s r ≡ ok (goes_on, s, record r { memory = Memory.update_all r.memory })
unfolding atomic_end atomic_commit
atomic_end-nop s r e = rw (e, atomic_commit)

-- What the end of `atomicCommit` gives, by the answer of `tryToCommit`.
pub data AfterTry (s : Shared) (m : Memory) (r : Run) (c : CommitResult) (s' : Shared) (r' : Run)
    : Bool → Type 0 where
  went :
      (events : List Event)
      → c ≡ CommitResult.succeeded
      → s' ≡ s
      → r'.memory ≡ m
      → Io.commit r.files ≡ ok (events, r'.files)
      → r'.log ≡ r.log ++ (committed ∷ sent events ∷ flushed ∷ [])
      → AfterTry s m r c s' r' true
  refused :
      c ≡ CommitResult.failed
      → s' ≡ s
      → r'.memory ≡ m
      → r'.files ≡ r.files
      → r'.log ≡ r.log
      → r'.pred ≡ r.pred
      → AfterTry s m r c s' r' false

after_try-AfterTry :
    (s : Shared) (m : Memory) (r : Run) (b : Bool) (c : CommitResult) (s' : Shared) (r' : Run)
    → after_try s m r b ≡ ok (c, s', r')
    → AfterTry s m r c s' r' b
unfolding after_try
after_try-AfterTry s m r false c s' r' e = refused (cc) (cc) (cc) (cc) (cc) (cc)
after_try-AfterTry s m r true c s' r' e =
    let (z, e₁, e₂) = >>=-eq-ok (Io.commit r.files) _ e in
    went z.0 (cc) (cc) (cc) (e₁ ∙ ap (λ fs. ok (z.0, fs)) (cc)) (cc)

-- How `atomicEnd` comes to its result when something was touched.
pub record Ends (s : Shared) (r : Run) (f : Flow) (s' : Shared) (r' : Run) : Type 0 where
  pub done : Bool
  pub s₁ : Shared
  pub m₁ : Memory
  pub tried : Memory.try_to_commit s r.memory ≡ ok (done, s₁, m₁)
  pub c : CommitResult
  pub r₁ : Run
  pub after : AfterTry s₁ m₁ (wait_pred r) c s' r₁ done
  pub flow : f ≡ (atomic_end_with c r₁).0
  pub result : r' ≡ (atomic_end_with c r₁).1

Ends-intro :
    {s s' s₁ s₂ : Shared} {r r' r₁ : Run} {m₁ : Memory} {f : Flow} {c : CommitResult} {done : Bool}
    → Memory.try_to_commit s r.memory ≡ ok (done, s₁, m₁)
    → after_try s₁ m₁ (wait_pred r) done ≡ ok (c, s₂, r₁)
    → ◌≡◌ {A = Result (Flow × Shared × Run)}
        (ok ((atomic_end_with c r₁).0, s₂, (atomic_end_with c r₁).1))
        (ok (f, s', r'))
    → Ends s r f s' r'
Ends-intro {s} {s'} {s₁} {s₂} {r} {r'} {r₁} {m₁} {f} {c} {done} tried after e = record {
  done = done;
  s₁ = s₁;
  m₁ = m₁;
  tried = tried;
  c = c;
  r₁ = r₁;
  after =
      subst (λ x. AfterTry s₁ m₁ (wait_pred r) c x r₁ done) same
        (after_try-AfterTry s₁ m₁ (wait_pred r) done c s₂ r₁ after);
  flow = cc;
  result = cc;
}
  where
    same : s₂ ≡ s'
    same = cc

pub touched_commit :
    (s : Shared) (r : Run) (z : CommitResult × Shared × Run)
    → Memory.is_nop r.memory ≡ false
    → atomic_commit s r ≡ ok z
    → (Memory.try_to_commit s r.memory >>= λ y. after_try y.1 y.2 (wait_pred r) y.0) ≡ ok z
unfolding atomic_commit
touched_commit s r z n e = rw (n, atomic_commit) at e

pub atomic_end-Ends :
    (s s' : Shared) (r r' : Run) (f : Flow)
    → Memory.is_nop r.memory ≡ false
    → atomic_end s r ≡ ok (f, s', r')
    → Ends s r f s' r'
unfolding atomic_end
atomic_end-Ends s s' r r' f n e =
    let (z, e₁, e₂) = >>=-eq-ok (atomic_commit s r) _ e in
    let (y, e₄, e₅) = >>=-eq-ok (Memory.try_to_commit s r.memory) _ (touched_commit s r z n e₁) in
    Ends-intro e₄ e₅ e₂

-- The log that a transaction leaves which waited for `t`.
waited : (r : Run) (t : ℕ) → r.pred ≡ suc t → (wait_pred r).log ≡ r.log ++ (waited_for (suc t) ∷ [])
unfolding wait_pred
waited r t e = ground arith

pred_kept : (r : Run) → (wait_pred r).pred ≡ r.pred
unfolding wait_pred
pred_kept r = ground arith

files_kept : (r : Run) → (wait_pred r).files ≡ r.files
unfolding wait_pred
files_kept r = ground arith

-- A process whose transaction, which waited for `t`, was committed with `m` as its memory.
pub record Through (r : Run) (t : ℕ) (m : Memory) (f : Flow) (r' : Run) : Type 0 where
  pub flow : f ≡ goes_on
  pub pred : r'.pred ≡ 0
  pub memory : r'.memory ≡ m
  pub events : List Event
  pub sending : Io.commit r.files ≡ ok (events, r'.files)
  pub log : r'.log ≡ (r.log ++ (waited_for t ∷ [])) ++ (committed ∷ sent events ∷ flushed ∷ [])

-- A process whose transaction, which waited for `t`, was refused with `m` as its memory.
pub record Again (r : Run) (t : ℕ) (m : Memory) (f : Flow) (r' : Run) : Type 0 where
  pub flow : f ≡ rolls_back
  pub pred : r'.pred ≡ t
  pub memory : r'.memory ≡ Memory.begin (Memory.abort m)
  pub files : r'.files ≡ r.files
  pub log : r'.log ≡ (r.log ++ (waited_for t ∷ [])) ++ (rolled_back ∷ began ∷ [])

Way-intro :
    {s s' : Shared} {m : Memory} {r r' r₁ : Run} {c : CommitResult} {f : Flow} {t : ℕ} {done : Bool}
    → r.pred ≡ suc t
    → AfterTry s m (wait_pred r) c s' r₁ done
    → f ≡ (atomic_end_with c r₁).0
    → r' ≡ (atomic_end_with c r₁).1
    → (s' ≡ s)
      × (((done ≡ true) × Through r (suc t) m f r') ⊎ ((done ≡ false) × Again r (suc t) m f r'))
unfolding atomic_end_with abort
Way-intro {r = r} {r₁ = r₁} {t = t} p (went events c same memory sending log) flow result =
    let step = rw c at result in
    (
      same,
      inl (
        refl,
        record {
          flow = rw c at flow;
          pred = ap (λ x. x.pred) step;
          memory = ap (λ x. x.memory) step ∙ memory;
          events = events;
          sending =
              ap Io.commit (sym (files_kept r))
              ∙ sending
              ∙ ap (λ (x : Run). ok (events, x.files)) (sym step);
          log =
              ap (λ x. x.log) step
              ∙ log
              ∙ ap (λ l. l ++ (committed ∷ sent events ∷ flushed ∷ [])) (waited r t p);
        },
      ),
    )
Way-intro {r = r} {t = t} p (refused c same memory files log pred) flow result =
    let step = rw c at result in
    (
      same,
      inr (
        refl,
        record {
          flow = rw c at flow;
          pred = ap (λ x. x.pred) step ∙ pred ∙ pred_kept r ∙ p;
          memory = ap (λ x. x.memory) step ∙ ap (λ m. Memory.begin (Memory.abort m)) memory;
          files = ap (λ x. x.files) step ∙ files ∙ files_kept r;
          log =
              ap (λ x. x.log) step ∙ ap (λ l. l ++ (rolled_back ∷ began ∷ [])) (log ∙ waited r t p);
        },
      ),
    )

-- What a transaction that touched something, and has a predecessor, has done when `atomicEnd` returns.
-- It waits for the predecessor before anything else is seen of it. If `tryToCommit` says yes, what the
-- commit of its files makes of them is sent after the commit of the memory, and then stdio is flushed;
-- the predecessor is forgotten and the caller goes on, with the memory and the files that the two
-- commits leave. If it says no, nothing is sent or flushed, the files and the predecessor stay, and the
-- process's memory is the one of the attempt after `abort` and `begin`.
pub atomic_end_ways :
    (s s' : Shared) (r r' : Run) (f : Flow) (t : ℕ)
    → r.pred ≡ suc t
    → Memory.is_nop r.memory ≡ false
    → atomic_end s r ≡ ok (f, s', r')
    → (done : Bool) × (m : Memory) × (Memory.try_to_commit s r.memory ≡ ok (done, s', m))
      × (((done ≡ true) × Through r (suc t) m f r') ⊎ ((done ≡ false) × Again r (suc t) m f r'))
atomic_end_ways s s' r r' f t p n e =
    let w = atomic_end-Ends s s' r r' f n e in
    let (same, way) = Way-intro p w.after w.flow w.result in
    (
      w.done,
      w.m₁,
      subst (λ x. Memory.try_to_commit s r.memory ≡ ok (w.done, x, w.m₁)) (sym same) w.tried,
      way,
    )
