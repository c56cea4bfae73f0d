-- ===== src/Sequence/Joins.antt =====
-- Why a `sync` of a forked thread (src/source/xthread.cpp) does not wait for long: who is first in the line
-- has only children that have exited.
use grace.Prelude.{
  ℕ, ◌≡◌, ◌≢◌, refl, sym, ap, ◌∙◌, subst, ◌⊎◌, inl, inr, Bool, true, none, some, List, [], ◌∷◌,
  ◌++◌, ◌==◌, if◌then◌else◌, arith,
}
use grace.Memory.{Shared}
use grace.Transaction.{Program, Image, image}
use grace.Run.{goes_on, rolls_back}
use grace.Run.Keeps.{atomic_end-tid}
use grace.Thread.{Thread, join_forked}
use grace.Latch.{latch_index}
use grace.Sequence.{
  gone, Orderly, AllOrderly, Code, spawns, joins, ends, sequence, Member, Live, tid, live, Threads,
  Passes, resume, Step, computes, commits, rolls, spawns_quiet, spawns_after, stays_alone, joined,
  exits, Reach, here, next, start,
}
use grace.Sequence.Parts.{spawn-Parts}
use grace.Sequence.Order.{join_keeps, resume_tid, Inv, Reach-Inv, started}
use grace.Sequence.Progress.{at_first}

abbrev Each : (ℕ → Type 0) → List ℕ → Type 0
Each known [] = Unit {0}
Each known (c ∷ cs) = known c × Each known cs

-- Each child of a live thread is known, or stands before it in the line.
abbrev Families : (ℕ → Type 0) → List Live → Type 0
Families known [] = Unit {0}
Families known (l ∷ ls) = Each known l.children × Families (λ c. known c ⊎ (c ≡ tid l)) ls

Each-sub :
    (known known' : ℕ → Type 0) (cs : List ℕ)
    → ((c : ℕ) → known c → known' c)
    → Each known cs
    → Each known' cs
Each-sub known known' [] f v = tt
Each-sub known known' (c ∷ cs) f (k, v) = (f c k, Each-sub known known' cs f v)

Each-Member : (known : ℕ → Type 0) (cs : List ℕ) (c : ℕ) → Each known cs → Member c cs → known c
Each-Member known [] c v m = elim m [ ]
Each-Member known (d ∷ cs) c (k, v) (inl e) = subst known (sym e) k
Each-Member known (d ∷ cs) c (k, v) (inr m) = Each-Member known cs c v m

Families-sub :
    (known known' : ℕ → Type 0) (ls : List Live)
    → ((c : ℕ) → known c → known' c)
    → Families known ls
    → Families known' ls
Families-sub known known' [] f v = tt
Families-sub known known' (l ∷ ls) f (k, v) = (
  Each-sub known known' l.children f k,
  Families-sub (λ c. known c ⊎ (c ≡ tid l)) (λ c. known' c ⊎ (c ≡ tid l)) ls
      (λ c e. elim e [ inl x ↦ inl (f c x) | inr x ↦ inr x ]) v,
)

-- A thread that keeps its id and its children.
Families-same :
    (known : ℕ → Type 0) (before after : List Live) (t t' : Thread) (k k' : Code) (cs : List ℕ)
    → t'.run.tid ≡ t.run.tid
    → Families known (before ++ (live t k cs ∷ after))
    → Families known (before ++ (live t' k' cs ∷ after))
Families-same known [] after t t' k k' cs e (v, w) = (
  v,
  Families-sub (λ c. known c ⊎ (c ≡ t.run.tid)) (λ c. known c ⊎ (c ≡ t'.run.tid)) after
      (λ c x. elim x [ inl y ↦ inl y | inr y ↦ inr (y ∙ sym e) ]) w,
)
Families-same known (b ∷ before) after t t' k k' cs e (v, w) =
    (v, Families-same (λ c. known c ⊎ (c ≡ tid b)) before after t t' k k' cs e w)

-- A child before its parent.
Families-child :
    (known : ℕ → Type 0) (before after : List Live) (t child parent : Thread) (k k' k'' : Code)
    (cs : List ℕ) (i : ℕ)
    → parent.run.tid ≡ t.run.tid
    → child.run.tid ≡ i
    → Families known (before ++ (live t k cs ∷ after))
    → Families known (before ++ (live child k' cs ∷ live parent k'' (i ∷ cs) ∷ after))
Families-child known [] after t child parent k k' k'' cs i e f (v, w) = (
  v,
  (
    (inr (sym f), Each-sub known (λ c. known c ⊎ (c ≡ child.run.tid)) cs (λ c x. inl x) v),
    Families-sub (λ c. known c ⊎ (c ≡ t.run.tid))
        (λ c. (known c ⊎ (c ≡ child.run.tid)) ⊎ (c ≡ parent.run.tid)) after
        (λ c x. elim x [ inl y ↦ inl (inl y) | inr y ↦ inr (y ∙ sym e) ]) w,
  ),
)
Families-child known (b ∷ before) after t child parent k k' k'' cs i e f (v, w) =
    (v, Families-child (λ c. known c ⊎ (c ≡ tid b)) before after t child parent k k' k'' cs i e f w)

abbrev Gone : (ℕ → Bool) → ℕ → Type 0
Gone exited c = exited c ≡ true

-- The first thread exits.
Families-exit :
    (exited : ℕ → Bool) (l : Live) (after : List Live)
    → Families (Gone exited) (l ∷ after)
    → Families (Gone (λ j. if latch_index j == latch_index (tid l) then true else exited j)) after
Families-exit exited l after (v, w) =
    Families-sub (λ c. Gone exited c ⊎ (c ≡ tid l))
      (Gone (λ j. if latch_index j == latch_index (tid l) then true else exited j)) after
      (λ c x. elim x [ inl y ↦ ground (arith, y) | inr y ↦ ground (arith, y) ]) w

Step-Families :
    (q : List Program) (f : Image) (σ : Threads) {τ : Threads}
    → Inv q f σ
    → Families (Gone (gone σ)) σ.live
    → (m : Step σ τ) → Orderly m
    → Families (Gone (gone τ)) τ.live
Step-Families q f σ v w (computes before after cs t k m e) b =
    Families-same (Gone (gone σ)) before after t (record t { run = record t.run { memory = m } }) k
      k cs refl (subst (Families (Gone (gone σ))) e w)
Step-Families q f σ v w (commits before after cs t c k p s r e c' ready h) b =
    Families-same (Gone (gone σ)) before after t (record t { run = resume c' r }) c k cs
      (resume_tid c' r ∙ atomic_end-tid σ.shared s t.run r goes_on h)
      (subst (Families (Gone (gone σ))) e w)
Step-Families q f σ v w (rolls before after cs t c p s r e ready h) b =
    Families-same (Gone (gone σ)) before after t (record t { run = r }) c c cs
      (atomic_end-tid σ.shared s t.run r rolls_back h) (subst (Families (Gone (gone σ))) e w)
Step-Families q f σ v w
      (spawns_quiet before after cs t parent child c k fn i garbage status s e n h) b =
    let parts = spawn-Parts fn i garbage status σ.shared s t parent child h in
    Families-child (Gone (gone σ)) before after t child parent (spawns none c k) c k cs i
      parts.parent_tid parts.child_tid (subst (Families (Gone (gone σ))) e w)
Step-Families q f σ v w
      (spawns_after before after cs t parent child c k p fn i garbage status s e ready h) b =
    let parts = spawn-Parts fn i garbage status σ.shared s t parent child h in
    Families-child (Gone (gone σ)) before after t child parent (spawns (some p) c k) c k cs i
      parts.parent_tid parts.child_tid (subst (Families (Gone (gone σ))) e w)
Step-Families q f σ v w (stays_alone before after cs t parent w' c k fn garbage status s e h) b =
    absurd b
Step-Families q f σ v w (joined before after cs t k status e among past) b =
    Families-same (Gone (gone σ)) before after t (join_forked status t).0 (joins none k) k cs
      (join_keeps status t).0 (subst (Families (Gone (gone σ))) e w)
Step-Families q f σ v w (exits before after cs t e passes) b =
    let l = live t (ends none) cs in
    let none_before = at_first σ v.lined before after l e passes in
    subst
      (λ b.
        Families (Gone (λ i. if latch_index i == latch_index t.run.tid then true else gone σ i))
          (b ++ after))
      (sym none_before)
      (Families-exit (gone σ) l after
        (subst (Families (Gone (gone σ))) (e ∙ ap (λ b. b ++ (l ∷ after)) none_before) w))

Reach-Families :
    (q : List Program) (f : Image) {σ τ : Threads}
    → Inv q f σ
    → Families (Gone (gone σ)) σ.live
    → (r : Reach σ τ) → AllOrderly r
    → Families (Gone (gone τ)) τ.live
Reach-Families q f v w here b = w
Reach-Families q f v w (next r s) (b, c) =
    Step-Families q f _ (Reach-Inv q f v r b) (Reach-Families q f v w r b) s c

-- However far a program with threads has come, which started as one process whose id is not 0, and in
-- which each transaction that ended began with its regions apart, all pages closed and nothing recorded
-- and each `fork` gave a child, with an id whose latch no live thread had and had not been opened: a
-- thread for which the wait for its predecessor is over has only children that have exited, so its
-- `sync` of any of them does not wait.
pub sync_goes_on :
    (s : Shared) (t : Thread) (k : Code) {τ : Threads} (before after : List Live) (l : Live) (c : ℕ)
    → t.run.tid ≢ 0
    → (r : Reach (start s t k) τ) → AllOrderly r
    → τ.live ≡ before ++ (l ∷ after)
    → Passes τ l.thread
    → Member c l.children
    → gone τ c ≡ true
sync_goes_on s t k {τ} before after l c n r b e passes m =
    let v = started s t k n in
    let none_before =
      at_first τ (Reach-Inv (sequence k) (image s) v r b).lined before after l e passes in
    let (children, _) =
      subst (Families (Gone (gone τ))) (e ∙ ap (λ b. b ++ (l ∷ after)) none_before)
        (Reach-Families (sequence k) (image s) v (tt, tt) r b) in
    Each-Member (Gone (gone τ)) l.children c children m
