-- ===== src/Sequence/Order.antt =====
-- Programs with threads behave as without (src/source/xthread.cpp, src/include/xrun.h).
use grace.Prelude.{
  ℕ, ◌≡◌, ◌≢◌, refl, sym, ap, ◌∙◌, subst, Bool, true, false, none, some, List, [], ◌∷◌, ◌++◌, ◌==◌,
  if◌then◌else◌, arith,
}
use mathlib.Core.List.{append_assoc, append-nil}
use grace.Memory.{Shared}
use grace.Transaction.{Program, Image, image, run}
use grace.System.{run_all}
use grace.System.Serial.{run_all-append}
use grace.Run.{Run, goes_on, rolls_back, atomic_begin}
use grace.Run.Keeps.{atomic_end-tid, atomic_end-run, atomic_end-same}
use grace.Thread.{ThreadStatus, Thread, join_forked}
use grace.Latch.{latch_index}
use grace.Sequence.{
  gone, Orderly, AllOrderly, Code, spawns, joins, ends, sequence, Live, live, Threads, Absent,
  Unused, Commits, punctuated, joining, ended, resume, Step, computes, commits, rolls, spawns_quiet,
  spawns_after, stays_alone, joined, exits, Reach, here, next, start,
}
use grace.Sequence.Line.{
  Lined, first_passes, Lined-first, Lined-same, Lined-child, Lined-child_first, Lined-exit,
}
use grace.Sequence.Parts.{spawn-Parts, quiet_child, spawn-run}

-- What is left to do.
unfoldable pub pending : List Live → List Program
unfolding sequence
pending [] = []
pending (l ∷ ls) = sequence l.code ++ pending ls

-- What is done and what is left make up the sequence `q`, and the shared bytes are what the transactions
-- done make of `f` one after the other.
pub record Inv (q : List Program) (f : Image) (σ : Threads) : Type 0 where
  pub lined : Lined (gone σ) σ.live
  pub whole : σ.history ++ pending σ.live ≡ q
  pub effect : image σ.shared ≡ run_all σ.history f

-- Two lines with the same left to do behind the same threads.
pending-append :
    (before ls ls' : List Live)
    → pending ls ≡ pending ls'
    → pending (before ++ ls) ≡ pending (before ++ ls')
unfolding pending
pending-append [] ls ls' e = e
pending-append (b ∷ before) ls ls' e =
    ap (λ x. sequence b.code ++ x) (pending-append before ls ls' e)

-- The first thread has committed `p`.
committed_first :
    (q : List Program) (f : Image) (σ : Threads) (l : Live) (after ls : List Live) (p : Program)
    (s : Shared)
    → Inv q f σ
    → σ.live ≡ l ∷ after
    → Lined (gone σ) ls
    → pending (l ∷ after) ≡ p ∷ pending ls
    → image s ≡ run p (image σ.shared)
    → Inv q f (record σ { shared = s; live = ls; history = σ.history ++ (p ∷ []) })
committed_first q f σ l after ls p s v e lined left effect = record {
  lined = lined;
  whole =
      append_assoc σ.history (p ∷ []) (pending ls)
      ∙ ap (λ x. σ.history ++ x) (sym left)
      ∙ ap (λ x. σ.history ++ pending x) (sym e)
      ∙ v.whole;
  effect = effect ∙ ap (run p) v.effect ∙ sym (run_all-append σ.history p f);
}

-- The shared files are as they were, and the same is left to do.
unmoved :
    (q : List Program) (f : Image) (σ : Threads) (before ls ls' : List Live) (s : Shared)
    → Inv q f σ
    → σ.live ≡ before ++ ls
    → s ≡ σ.shared
    → Lined (gone σ) (before ++ ls')
    → pending ls' ≡ pending ls
    → Inv q f (record σ { shared = s; live = before ++ ls' })
unmoved q f σ before ls ls' s v e same lined left = record {
  lined = lined;
  whole =
      ap (λ x. σ.history ++ x) (pending-append before ls' ls left)
      ∙ ap (λ x. σ.history ++ pending x) (sym e)
      ∙ v.whole;
  effect = ap image same ∙ v.effect;
}

pub resume_tid : {c k : Code} {p : Program} (e : Commits c p k) (r : Run) → (resume e r).tid ≡ r.tid
unfolding atomic_begin
resume_tid (punctuated p k) r = refl
resume_tid (joining p k) r = refl
resume_tid (ended p) r = refl

commits_left :
    {c k : Code} {p : Program}
    → Commits c p k
    → (t t' : Thread) (cs : List ℕ) (after : List Live)
    → pending (live t c cs ∷ after) ≡ p ∷ pending (live t' k cs ∷ after)
unfolding pending sequence
commits_left (punctuated p k) t t' cs after = refl
commits_left (joining p k) t t' cs after = refl
commits_left (ended p) t t' cs after = refl

-- An id that a new process may get.
abbrev New : (ℕ → Bool) → ℕ → List Live → Type 0
New exited i ls = (i ≢ 0) × (exited i ≡ false) × Absent i ls

Unused-New : (σ : Threads) (i : ℕ) → Unused σ i → New (gone σ) i σ.live
Unused-New σ i u = (u.nonzero, u.not_exited, u.absent)

-- A `sync` leaves the id and the predecessor.
pub join_keeps :
    (status : ThreadStatus) (t : Thread)
    → ((join_forked status t).0.run.tid ≡ t.run.tid)
      × ((join_forked status t).0.run.pred ≡ t.run.pred)
unfolding join_forked atomic_begin
join_keeps status t = ground arith

-- A step keeps the invariant.
Step-Inv :
    (q : List Program) (f : Image) (σ : Threads) {τ : Threads}
    → Inv q f σ
    → (m : Step σ τ) → Orderly m
    → Inv q f τ
unfolding pending sequence
Step-Inv q f σ v (computes before after cs t k m e) b =
    let l' = live (record t { run = record t.run { memory = m } }) k cs in
    unmoved q f σ before (live t k cs ∷ after) (l' ∷ after) σ.shared v e refl
      (Lined-same (gone σ) before after (live t k cs) l' refl refl
        (subst (Lined (gone σ)) e v.lined))
      refl
Step-Inv q f σ v (commits before after cs t c k p s r e w ready h) b =
    let lined = subst (Lined (gone σ)) e v.lined in
    let none_before = first_passes (gone σ) before after (live t c cs) lined ready.passes in
    let l' : Live = live (record t { run = resume w r }) k cs in
    let first = subst (λ b. Lined (gone σ) (b ++ (live t c cs ∷ after))) none_before lined in
    subst
      (λ b.
        Inv q f
          (record σ { shared = s; live = b ++ (l' ∷ after); history = σ.history ++ (p ∷ []) }))
      (sym none_before)
      (committed_first q f σ (live t c cs) after (l' ∷ after) p s v
        (e ∙ ap (λ b. b ++ (live t c cs ∷ after)) none_before)
        (Lined-first (gone σ) after (live t c cs) l'
          (resume_tid w r ∙ atomic_end-tid σ.shared s t.run r goes_on h) first)
        (commits_left w t (record t { run = resume w r }) cs after)
        (atomic_end-run σ.shared s t.run r b ready.ran ready.free ready.touched h))
Step-Inv q f σ v (rolls before after cs t c p s r e ready h) b =
    let (same, kept) = atomic_end-same σ.shared s t.run r b ready.ran ready.free ready.touched h in
    let l' : Live = live (record t { run = r }) c cs in
    unmoved q f σ before (live t c cs ∷ after) (l' ∷ after) s v e same
      (Lined-same (gone σ) before after (live t c cs) l'
        (atomic_end-tid σ.shared s t.run r rolls_back h) kept (subst (Lined (gone σ)) e v.lined))
      refl
Step-Inv q f σ v (spawns_quiet before after cs t parent child c k fn i garbage status s e n h)
      unused =
    let parts = spawn-Parts fn i garbage status σ.shared s t parent child h in
    let (kept, same) = quiet_child fn i garbage status σ.shared s t parent child h n in
    let l = live t (spawns none c k) cs in
    let new = subst (λ j. New (gone σ) j σ.live) (sym parts.child_tid) (Unused-New σ i unused) in
    unmoved q f σ before (l ∷ after) (live child c cs ∷ live parent k (i ∷ cs) ∷ after) s v e same
      (Lined-child (gone σ) before after l (live parent k (i ∷ cs)) (live child c cs)
        parts.parent_tid (parts.parent_pred ∙ sym parts.child_tid) kept new.0 new.1
        (subst (Absent child.run.tid) e new.2) (subst (Lined (gone σ)) e v.lined))
      (sym (append_assoc (sequence c) (sequence k) (pending after)))
Step-Inv q f σ v (spawns_after before after cs t parent child c k p fn i garbage status s e ready h)
      (b, unused) =
    let parts = spawn-Parts fn i garbage status σ.shared s t parent child h in
    let l = live t (spawns (some p) c k) cs in
    let lined = subst (Lined (gone σ)) e v.lined in
    let none_before = first_passes (gone σ) before after l lined ready.passes in
    let at_first = e ∙ ap (λ b. b ++ (l ∷ after)) none_before in
    let new = subst (λ j. New (gone σ) j σ.live) (sym parts.child_tid) (Unused-New σ i unused) in
    subst
      (λ b. Inv q f (record σ {
        shared = s;
        live = b ++ (live child c cs ∷ live parent k (i ∷ cs) ∷ after);
        history = σ.history ++ (p ∷ []);
      }))
      (sym none_before)
      (committed_first q f σ l after (live child c cs ∷ live parent k (i ∷ cs) ∷ after) p s v
        at_first
        (Lined-child_first (gone σ) after l (live parent k (i ∷ cs)) (live child c cs)
          parts.parent_tid (parts.parent_pred ∙ sym parts.child_tid) new.0 new.1
          (subst (Absent child.run.tid) at_first new.2) (subst (Lined (gone σ)) at_first v.lined))
        (ap (λ x. p ∷ x) (append_assoc (sequence c) (sequence k) (pending after)))
        (spawn-run fn i garbage status σ.shared s t parent child h p b ready.ran ready.free
          ready.touched))
Step-Inv q f σ v (stays_alone before after cs t parent w' c k fn garbage status s e h) b = absurd b
Step-Inv q f σ v (joined before after cs t k status e among past) b =
    let l' : Live = live (join_forked status t).0 k cs in
    unmoved q f σ before (live t (joins none k) cs ∷ after) (l' ∷ after) σ.shared v e refl
      (Lined-same (gone σ) before after (live t (joins none k) cs) l' (join_keeps status t).0
        (join_keeps status t).1 (subst (Lined (gone σ)) e v.lined))
      refl
Step-Inv q f σ v (exits before after cs t e passes) b =
    let l = live t (ends none) cs in
    let lined = subst (Lined (gone σ)) e v.lined in
    let none_before = first_passes (gone σ) before after l lined passes in
    let at_first = e ∙ ap (λ b. b ++ (l ∷ after)) none_before in
    subst
      (λ b. Inv q f (record σ {
        live = b ++ after;
        exited = λ i. if i == latch_index t.run.tid then true else σ.exited i;
      }))
      (sym none_before)
      (record {
        lined = Lined-exit (gone σ) after l (subst (Lined (gone σ)) at_first v.lined);
        whole = ap (λ x. σ.history ++ pending x) (sym at_first) ∙ v.whole;
        effect = v.effect;
      })

pub Reach-Inv :
    (q : List Program) (f : Image) {σ τ : Threads}
    → Inv q f σ
    → (r : Reach σ τ) → AllOrderly r
    → Inv q f τ
Reach-Inv q f v here b = v
Reach-Inv q f v (next r s) (b, c) = Step-Inv q f _ (Reach-Inv q f v r b) s c

pub started :
    (s : Shared) (t : Thread) (k : Code) → t.run.tid ≢ 0 → Inv (sequence k) (image s) (start s t k)
unfolding pending run_all
started s t k n = record {
  lined = (n, refl, tt, tt, tt);
  whole = append-nil (sequence k);
  effect = refl;
}

-- Let a program with threads start as one process, whose id is not 0, and take any steps, of which each
-- transaction that ends began with its regions apart, all pages closed and nothing recorded, and each
-- `fork` gives a child, with an id whose latch no live thread has and has not been opened. The
-- transactions committed so far are the first ones of the sequence in which the program runs them
-- without threads, each spawned thread to its end before the spawning one goes on, and those of the
-- live threads are the rest of it; and the shared bytes are what the committed transactions make of the
-- first ones, run alone in that order. So when no thread is left, the bytes are those of the program
-- without threads.
pub Reach-sequence :
    (s : Shared) (t : Thread) (k : Code) {τ : Threads}
    → t.run.tid ≢ 0
    → (r : Reach (start s t k) τ) → AllOrderly r
    → (τ.history ++ pending τ.live ≡ sequence k) × (image τ.shared ≡ run_all τ.history (image s))
Reach-sequence s t k n r b =
    let v = Reach-Inv (sequence k) (image s) (started s t k n) r b in (v.whole, v.effect)
