-- ===== src/Libc/Printing.antt =====
-- What is seen of `printf` of src/source/libgrace.cpp.
use grace.Prelude.{
  ℕ, suc, ◌≡◌, sym, ap, subst, ◌∙◌, ◌⊎◌, inl, inr, false, Option, none, some, Bool, true, List, [],
  ◌∷◌, ◌++◌,
}
use grace.Result.{ok, >>=-eq-ok}
use grace.Memory.{Shared, Memory}
use grace.Memory
use grace.Io.{Event}
use grace.Io
use grace.Run.{
  Run, Flow, goes_on, rolls_back, waited_for, committed, sent, flushed, began, buffered,
  atomic_begin, atomic_end,
}
use grace.Run.Order.{Through, Again, atomic_end_ways}
use grace.Libc.Threads.{print_after, printf}

-- A `printf` of `text` that was made, with `m` as the memory that the commit left.
pub record Printed (text : List ℕ) (r : Run) (t : ℕ) (m : Memory) (f : Flow) (r' : Run)
    : Type 0 where
  pub flow : f ≡ goes_on
  pub memory : r'.memory ≡ Memory.begin m
  pub pred : r'.pred ≡ 0
  pub events : List Event
  pub sending : Io.commit r.files ≡ ok (events, r'.files)
  pub log :
      r'.log
      ≡ (((r.log ++ (waited_for t ∷ [])) ++ (committed ∷ sent events ∷ flushed ∷ []))
          ++ (buffered text ∷ []))
        ++ (began ∷ [])

printed :
    (text : List ℕ) (v : ℕ) (s' : Shared) (r r₁ r' : Run) (m : Memory) (f f' : Flow) (t : ℕ)
    (s₁ : Shared) (answer : Option ℕ)
    → Through r t m f r₁
    → print_after text v f s₁ r₁ ≡ (f', s', r', answer)
    → (s' ≡ s₁) × (answer ≡ some v) × Printed text r t m f' r'
unfolding print_after atomic_begin
printed text v s' r r₁ r' m goes_on f' t s₁ answer w z =
    let step = ap (λ (x : Flow × Shared × Run × Option ℕ). x.2) (sym z) in
    (
      ap (λ (x : Flow × Shared × Run × Option ℕ). x.1) (sym z),
      ap (λ (x : Flow × Shared × Run × Option ℕ). x.3) (sym z),
      record {
        flow = ap (λ (x : Flow × Shared × Run × Option ℕ). x.0) (sym z);
        memory = ap (λ (x : Run). x.memory) step ∙ ap Memory.begin w.memory;
        pred = ap (λ (x : Run). x.pred) step ∙ w.pred;
        events = w.events;
        sending = w.sending ∙ ap (λ (x : Run). ok (w.events, x.files)) (sym step);
        log =
            ap (λ (x : Run). x.log) step
            ∙ ap (λ l. (l ++ (buffered text ∷ [])) ++ (began ∷ [])) w.log;
      },
    )
printed text v s' r r₁ r' m rolls_back f' t s₁ answer w z = let bad = w.flow in cc

not_printed :
    (text : List ℕ) (v : ℕ) (s' : Shared) (r r₁ r' : Run) (m : Memory) (f f' : Flow) (t : ℕ)
    (s₁ : Shared) (answer : Option ℕ)
    → Again r t m f r₁
    → print_after text v f s₁ r₁ ≡ (f', s', r', answer)
    → (s' ≡ s₁) × (answer ≡ none) × Again r t m f' r'
unfolding print_after
not_printed text v s' r r₁ r' m goes_on f' t s₁ answer w z = let bad = w.flow in cc
not_printed text v s' r r₁ r' m rolls_back f' t s₁ answer w z = (
  ap (λ (x : Flow × Shared × Run × Option ℕ). x.1) (sym z),
  ap (λ (x : Flow × Shared × Run × Option ℕ). x.3) (sym z),
  subst (λ (x : Run). Again r t m f' x) (ap (λ (x : Flow × Shared × Run × Option ℕ). x.2) z) again,
)
  where
    again : Again r t m f' r₁
    again = record {
      flow = ap (λ (x : Flow × Shared × Run × Option ℕ). x.0) (sym z);
      pred = w.pred;
      memory = w.memory;
      files = w.files;
      log = w.log;
    }

-- A `printf` that returns to a process whose transaction touched something and has a predecessor. If
-- `tryToCommit` says yes, the text is put in the buffer of stdio after the process has waited for its
-- predecessor, committed its memory, sent what the commit of its files makes of them and flushed
-- stdio, and before the next transaction begins, from the memory that the commit left; so it is not
-- seen before a later flush. If it says no, the process starts its transaction anew and nothing is
-- put in the buffer.
pub printf_ways :
    (text : List ℕ) (v : ℕ) (s s' : Shared) (r r' : Run) (f : Flow) (t : ℕ) (answer : Option ℕ)
    → r.pred ≡ suc t
    → Memory.is_nop r.memory ≡ false
    → printf text v s r ≡ ok (f, s', r', answer)
    → (done : Bool) × (m : Memory) × (Memory.try_to_commit s r.memory ≡ ok (done, s', m))
      × (((done ≡ true) × (answer ≡ some v) × Printed text r (suc t) m f r')
          ⊎ ((done ≡ false) × (answer ≡ none) × Again r (suc t) m f r'))
unfolding printf
printf_ways text v s s' r r' f t answer p n e =
    let ((f₁, s₁, r₁), e₁, e₂) = >>=-eq-ok (atomic_end s r) _ e in
    let (done, m, tried, way) = atomic_end_ways s s₁ r r₁ f₁ t p n e₁ in
    elim way [
      | inl (agreed, w) ↦
          let (same, answered, h) = printed text v s' r r₁ r' m f₁ f (suc t) s₁ answer w (cc) in
          (done, m, tried ∙ ap (λ x. ok (done, x, m)) (sym same), inl (agreed, answered, h))
      | inr (denied, w) ↦
          let (same, answered, h) = not_printed text v s' r r₁ r' m f₁ f (suc t) s₁ answer w (cc) in
          (done, m, tried ∙ ap (λ x. ok (done, x, m)) (sym same), inr (denied, answered, h))
    ]
