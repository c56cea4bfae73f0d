-- ===== src/Sequence/Progress.antt =====
-- Which thread can pass the wait for its predecessor (`waitPred` of src/include/xrun.h).
use grace.Prelude.{
  ℕ, ◌≡◌, ◌≢◌, ◌↔◌, refl, sym, ap, ◌∙◌, subst, ◌⊎◌, inl, inr, Bool, true, false, none, some, List,
  [], ◌∷◌, ◌++◌, ◌==◌, if◌then◌else◌, arith,
}
use grace.Memory.{Shared}
use grace.Transaction.{Program, Image, image}
use grace.Run.{Run, atomic_begin}
use grace.Run.Pred.{atomic_end-pred}
use grace.Run.Keeps.{atomic_end-same}
use grace.Thread.{Thread, join_forked}
use grace.Thread.Chain.{spawn_chain}
use grace.Latch.{latch_index}
use grace.Sequence.{
  gone, Orderly, AllOrderly, Code, spawns, joins, ends, sequence, Live, pred, live, Threads, Passes,
  Commits, punctuated, joining, ended, resume, Step, computes, commits, rolls, spawns_quiet,
  spawns_after, stays_alone, joined, exits, Reach, here, next, start,
}
use grace.Sequence.Line.{Lined, Follows, first_passes}
use grace.Sequence.Parts.{quiet_child}
use grace.Sequence.Order.{join_keeps, Inv, Reach-Inv, started}

-- The first thread has no predecessor, or one that has exited.
abbrev FirstPasses : (ℕ → Bool) → List Live → Type 0
FirstPasses exited [] = Unit {0}
FirstPasses exited (l ∷ ls) = (pred l ≡ 0) ⊎ (exited (pred l) ≡ true)

FirstPasses-same :
    (exited : ℕ → Bool) (before after after' : List Live) (l l' : Live)
    → pred l' ≡ pred l
    → FirstPasses exited (before ++ (l ∷ after))
    → FirstPasses exited (before ++ (l' ∷ after'))
FirstPasses-same exited [] after after' l l' e (inl z) = inl (e ∙ z)
FirstPasses-same exited [] after after' l l' e (inr z) =
    inr (subst (λ i. exited i ≡ true) (sym e) z)
FirstPasses-same exited (b ∷ before) after after' l l' e v = v

-- When the first thread exits, the next one follows it.
FirstPasses-exit :
    (exited : ℕ → Bool) (i : ℕ) (ls : List Live)
    → Follows i ls
    → FirstPasses (λ j. if latch_index j == latch_index i then true else exited j) ls
FirstPasses-exit exited i [] f = tt
FirstPasses-exit exited i (l ∷ ls) f = inr (ground (arith, f))

resume_pred : {c k : Code} {p : Program} (e : Commits c p k) (r : Run) → (resume e r).pred ≡ r.pred
unfolding atomic_begin
resume_pred (punctuated p k) r = refl
resume_pred (joining p k) r = refl
resume_pred (ended p) r = refl

-- The case of a transaction that touched something.
after_touched : {A B : Type 0} {b : Bool} → b ≡ false → ((b ≡ true) × A) ⊎ ((b ≡ false) × B) → B
after_touched n (inl (y, _)) = let both : true ≡ false = sym y ∙ n in cc
after_touched n (inr (_, z)) = z

module _ (σ : Threads) (lined : Lined (gone σ) σ.live) where
  pub at_first :
      (before after : List Live) (l : Live)
      → σ.live ≡ before ++ (l ∷ after)
      → Passes σ l.thread
      → before ≡ []
  at_first before after l e passes =
      first_passes (gone σ) before after l (subst (Lined (gone σ)) e lined) passes

Step-FirstPasses :
    (σ : Threads) {τ : Threads}
    → Lined (gone σ) σ.live
    → FirstPasses (gone σ) σ.live
    → (m : Step σ τ) → Orderly m
    → FirstPasses (gone τ) τ.live
Step-FirstPasses σ v f (computes before after cs t k m e) b =
    FirstPasses-same (gone σ) before after after (live t k cs)
      (live (record t { run = record t.run { memory = m } }) k cs) refl
      (subst (FirstPasses (gone σ)) e f)
Step-FirstPasses σ v f (commits before after cs t c k p s r e w ready h) b =
    subst (λ b. FirstPasses (gone σ) (b ++ (live (record t { run = resume w r }) k cs ∷ after)))
      (sym (at_first σ v before after (live t c cs) e ready.passes))
      (inl (resume_pred w r ∙ after_touched ready.touched (atomic_end-pred σ.shared s t.run r h)))
Step-FirstPasses σ v f (rolls before after cs t c p s r e ready h) b =
    FirstPasses-same (gone σ) before after after (live t c cs) (live (record t { run = r }) c cs)
      (atomic_end-same σ.shared s t.run r b ready.ran ready.free ready.touched h).1
      (subst (FirstPasses (gone σ)) e f)
Step-FirstPasses σ v f (spawns_quiet before after cs t parent child c k fn i garbage status s e n h)
      unused =
    FirstPasses-same (gone σ) before after (live parent k (i ∷ cs) ∷ after)
      (live t (spawns none c k) cs) (live child c cs)
      (quiet_child fn i garbage status σ.shared s t parent child h n).0
      (subst (FirstPasses (gone σ)) e f)
Step-FirstPasses σ v f
      (spawns_after before after cs t parent child c k p fn i garbage status s e ready h)
      (b, unused) =
    let (_, _, _, _, ways) = spawn_chain fn i garbage status σ.shared s t parent child h in
    subst (λ b. FirstPasses (gone σ) (b ++ (live child c cs ∷ live parent k (i ∷ cs) ∷ after)))
      (sym (at_first σ v before after (live t (spawns (some p) c k) cs) e ready.passes))
      (inl (after_touched ready.touched ways))
Step-FirstPasses σ v f (stays_alone before after cs t parent w' c k fn garbage status s e h) b =
    absurd b
Step-FirstPasses σ v f (joined before after cs t k status e among past) b =
    FirstPasses-same (gone σ) before after after (live t (joins none k) cs)
      (live (join_forked status t).0 k cs) (join_keeps status t).1
      (subst (FirstPasses (gone σ)) e f)
Step-FirstPasses σ v f (exits before after cs t e passes) b =
    let none_before = at_first σ v before after (live t (ends none) cs) e passes in
    let (_, _, _, follows, _) =
      subst (Lined (gone σ)) (e ∙ ap (λ b. b ++ (live t (ends none) cs ∷ after)) none_before) v in
    subst
      (λ b.
        FirstPasses (λ i. if latch_index i == latch_index t.run.tid then true else gone σ i)
          (b ++ after))
      (sym none_before) (FirstPasses-exit (gone σ) t.run.tid after follows)

Reach-FirstPasses :
    (q : List Program) (f : Image) {σ τ : Threads}
    → Inv q f σ
    → FirstPasses (gone σ) σ.live
    → (r : Reach σ τ) → AllOrderly r
    → FirstPasses (gone τ) τ.live
Reach-FirstPasses q f v w here b = w
Reach-FirstPasses q f v w (next r s) (b, c) =
    Step-FirstPasses _ (Reach-Inv q f v r b).lined (Reach-FirstPasses q f v w r b) s c

-- However far a program with threads has come, which started as one process with an id other than 0 and
-- no predecessor, and in which each transaction that ended began with its regions apart, all pages
-- closed and nothing recorded and each `fork` gave a child, with an id whose latch no live thread had
-- and had not been opened, the wait for the predecessor is over for exactly one of the live threads,
-- the first in the order of the program without threads. So while threads are left, one of them need
-- not wait, and only that one can commit.
pub passes_first :
    (s : Shared) (t : Thread) (k : Code) {τ : Threads} (before after : List Live) (l : Live)
    → t.run.tid ≢ 0
    → t.run.pred ≡ 0
    → (r : Reach (start s t k) τ) → AllOrderly r
    → τ.live ≡ before ++ (l ∷ after)
    → Passes τ l.thread ↔ (before ≡ [])
passes_first s t k {τ} before after l n z r b e =
    let v = started s t k n in
    let lined = (Reach-Inv (sequence k) (image s) v r b).lined in
    let f = Reach-FirstPasses (sequence k) (image s) v (inl z) r b in
    (
      λ passes. at_first τ lined before after l e passes,
      λ none_before. subst (FirstPasses (gone τ)) (e ∙ ap (λ b. b ++ (l ∷ after)) none_before) f,
    )
