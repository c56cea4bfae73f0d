-- ===== src/Sequence/Line.antt =====
-- The line of live threads, in which each waits for the one before it.
use grace.Prelude.{
  ℕ, ◌≡◌, ◌≢◌, refl, sym, ap, ◌∙◌, subst, ◌⊎◌, inl, inr, Bool, true, false, List, [], ◌∷◌, ◌++◌,
  ◌==◌, if◌then◌else◌, arith,
}
use grace.Latch.{latch_index}
use grace.Sequence.{Live, tid, pred, Absent}

-- The next thread waits for the process `i`.
abbrev pub Follows : ℕ → List Live → Type 0
Follows i [] = Unit {0}
Follows i (l ∷ ls) = pred l ≡ i

-- Ids are not 0 and differ, no thread of the line has exited, and each but the first waits for the one
-- before it.
abbrev pub Lined : (ℕ → Bool) → List Live → Type 0
Lined exited [] = Unit {0}
Lined exited (l ∷ ls) =
    (tid l ≢ 0)
    × (exited (tid l) ≡ false)
    × Absent (tid l) ls
    × Follows (tid l) ls
    × Lined exited ls

Absent-same :
    (i : ℕ) (before after : List Live) (l l' : Live)
    → tid l' ≡ tid l
    → Absent i (before ++ (l ∷ after))
    → Absent i (before ++ (l' ∷ after))
Absent-same i [] after l l' e (a, rest) = (λ h. a (ap latch_index (sym e) ∙ h), rest)
Absent-same i (b ∷ before) after l l' e (a, rest) = (a, Absent-same i before after l l' e rest)

Follows-same :
    (i : ℕ) (before after : List Live) (l l' : Live)
    → pred l' ≡ pred l
    → Follows i (before ++ (l ∷ after))
    → Follows i (before ++ (l' ∷ after))
Follows-same i [] after l l' e f = e ∙ f
Follows-same i (b ∷ before) after l l' e f = f

Absent-child :
    (i : ℕ) (before after : List Live) (l parent child : Live)
    → tid parent ≡ tid l
    → latch_index (tid child) ≢ latch_index i
    → Absent i (before ++ (l ∷ after))
    → Absent i (before ++ (child ∷ parent ∷ after))
Absent-child i [] after l parent child e other (a, rest) =
    (other, ((λ h. a (ap latch_index (sym e) ∙ h)), rest))
Absent-child i (b ∷ before) after l parent child e other (a, rest) =
    (a, Absent-child i before after l parent child e other rest)

Follows-child :
    (i : ℕ) (before after : List Live) (l parent child : Live)
    → pred child ≡ pred l
    → Follows i (before ++ (l ∷ after))
    → Follows i (before ++ (child ∷ parent ∷ after))
Follows-child i [] after l parent child e f = e ∙ f
Follows-child i (b ∷ before) after l parent child e f = f

module _ (exited : ℕ → Bool) where
  -- Only the first thread can pass the wait for its predecessor.
  pub first_passes :
      (before after : List Live) (l : Live)
      → Lined exited (before ++ (l ∷ after))
      → (pred l ≡ 0) ⊎ (exited (pred l) ≡ true)
      → before ≡ []
  first_passes [] after l v p = refl
  first_passes (b ∷ []) after l (nonzero, there, _, follows, _) (inl e) =
      absurd_at (nonzero (sym follows ∙ e))
    where
      absurd_at : ⊥ → (b ∷ []) ≡ []
      absurd_at h = elim h [ ]
  first_passes (b ∷ []) after l (nonzero, there, _, follows, _) (inr e) =
      let both : true ≡ false = sym e ∙ subst (λ i. exited i ≡ false) (sym follows) there in cc
  first_passes (b ∷ c ∷ before) after l (_, _, _, _, v) p =
      let none_left = first_passes (c ∷ before) after l v p in cc

  -- The first thread may get any predecessor.
  pub Lined-first :
      (after : List Live) (l l' : Live)
      → tid l' ≡ tid l
      → Lined exited (l ∷ after)
      → Lined exited (l' ∷ after)
  Lined-first after l l' e (nonzero, there, absent, follows, v) = (
    λ h. nonzero (sym e ∙ h),
    subst (λ i. exited i ≡ false) (sym e) there,
    subst (λ i. Absent i after) (sym e) absent,
    subst (λ i. Follows i after) (sym e) follows,
    v,
  )

  -- A thread anywhere that keeps its id and its predecessor.
  pub Lined-same :
      (before after : List Live) (l l' : Live)
      → tid l' ≡ tid l
      → pred l' ≡ pred l
      → Lined exited (before ++ (l ∷ after))
      → Lined exited (before ++ (l' ∷ after))
  Lined-same [] after l l' e f v = Lined-first after l l' e v
  Lined-same (b ∷ before) after l l' e f (nonzero, there, absent, follows, v) = (
    nonzero,
    there,
    Absent-same (tid b) before after l l' e absent,
    Follows-same (tid b) before after l l' f follows,
    Lined-same before after l l' e f v,
  )

  -- A child put before the first thread, which waits for it from now on.
  pub Lined-child_first :
      (after : List Live) (l parent child : Live)
      → tid parent ≡ tid l
      → pred parent ≡ tid child
      → tid child ≢ 0
      → exited (tid child) ≡ false
      → Absent (tid child) (l ∷ after)
      → Lined exited (l ∷ after)
      → Lined exited (child ∷ parent ∷ after)
  Lined-child_first after l parent child e f nonzero there (other, absent) v = (
    nonzero,
    there,
    ((λ h. other (ap latch_index (sym e) ∙ h)), absent),
    f,
    Lined-first after l parent e v,
  )

  -- A child put before any thread, whose predecessor it takes over.
  pub Lined-child :
      (before after : List Live) (l parent child : Live)
      → tid parent ≡ tid l
      → pred parent ≡ tid child
      → pred child ≡ pred l
      → tid child ≢ 0
      → exited (tid child) ≡ false
      → Absent (tid child) (before ++ (l ∷ after))
      → Lined exited (before ++ (l ∷ after))
      → Lined exited (before ++ (child ∷ parent ∷ after))
  Lined-child [] after l parent child e f g nonzero there absent v =
      Lined-child_first after l parent child e f nonzero there absent v
  Lined-child (b ∷ before) after l parent child e f g nonzero there (other, absent)
        (n, t, a, w, v) =
      (
        n,
        t,
        Absent-child (tid b) before after l parent child e (λ h. other (sym h)) a,
        Follows-child (tid b) before after l parent child g w,
        Lined-child before after l parent child e f g nonzero there absent v,
      )

  exited_first :
      (i : ℕ) (ls : List Live)
      → Absent i ls
      → Lined exited ls
      → Lined (λ j. if latch_index j == latch_index i then true else exited j) ls
  exited_first i [] a v = tt
  exited_first i (l ∷ ls) (other, a) (nonzero, there, absent, follows, v) =
      (nonzero, ground (arith, other, there), absent, follows, exited_first i ls a v)

  -- The first thread exits.
  pub Lined-exit :
      (after : List Live) (l : Live)
      → Lined exited (l ∷ after)
      → Lined (λ j. if latch_index j == latch_index (tid l) then true else exited j) after
  Lined-exit after l (_, _, absent, _, v) = exited_first (tid l) after absent v
