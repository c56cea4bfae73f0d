-- ===== src/Context/Restore.antt =====
-- The stack after `abort` of src/source/xcontext.cpp, and as it was at `commit`.
use grace.Prelude.{
  ℕ, zero, suc, ◌-◌, ◌≤◌, ◌<◌, ◌≡◌, refl, ap, subst, fun_ext, ◌∙◌, inl, inr, false, ◌&&◌, arith,
  ltb, leb, le→leb, if◌then◌else◌, Bool-cases,
}
use grace.Result.{ok, undefined}
use grace.Context.{
  pos, difference, max_stack_size, Context, save_words, save_stack, get_context, commit,
  restore_words, copy_back, Restored,
}

save_words_lem :
    (pbos : ℕ) (memory stack : ℕ → ℕ) (n i : ℕ)
    → save_words pbos memory n stack i ≡ (if ltb i n then memory (pbos - i) else stack i)
unfolding save_words
save_words_lem pbos memory stack zero i = ground arith
save_words_lem pbos memory stack (suc n) i = ground (arith, save_words_lem pbos memory stack n i)

restore_words_lem :
    (pbos : ℕ) (stack memory : ℕ → ℕ) (n a : ℕ)
    → n ≤ pbos
    → restore_words pbos stack n memory a
      ≡ (if ltb (pbos - n) a && leb a pbos then stack (pbos - a) else memory a)
unfolding restore_words
restore_words_lem pbos stack memory zero a h = ground arith
restore_words_lem pbos stack memory (suc n) a h =
    ground (arith, restore_words_lem pbos stack memory n a)

-- The context that `commit` makes between two addresses.
abbrev saved : ℕ → ℕ → (ℕ → ℕ) → Context → Context
saved registers tos memory c = record c {
  registers = registers;
  stack_size = pos (c.pbos - tos);
  stack = save_words c.pbos memory (c.pbos - tos) c.stack;
}

commit_lem :
    (registers tos : ℕ) (memory : ℕ → ℕ) (c : Context)
    → tos ≤ c.pbos
    → c.pbos - tos ≤ max_stack_size
    → commit registers tos memory c ≡ ok (saved registers tos memory c)
unfolding commit get_context save_stack difference
commit_lem registers tos memory c h k = rw (le→leb _ _ h, le→leb _ _ k, save_stack) refl

module _ (frame : ℕ) (c : Context) (memory : ℕ → ℕ) where
  abbrev restored_at : ℕ → Restored
  restored_at t = record { registers = c.registers; memory = copy_back c memory; last_frame = t }

-- Where a saved word is put back, and what stays.
copy_back-saved :
    (registers tos : ℕ) (memory later : ℕ → ℕ) (c : Context) (a : ℕ)
    → tos ≤ c.pbos
    → copy_back (saved registers tos memory c) later a
      ≡ (if ltb tos a && leb a c.pbos then memory a else later a)
unfolding copy_back
copy_back-saved registers tos memory later c a h =
    let size : ℕ = c.pbos - tos in
    let stack : (ℕ → ℕ) = save_words c.pbos memory size c.stack in
    restore_words_lem c.pbos stack later size a (omega arith)
    ∙ elim (Bool-cases (ltb tos a && leb a c.pbos)) [
      | inl inside ↦
          let back : memory (c.pbos - (c.pbos - a)) ≡ memory a =
            ap memory (ground (arith, inside)) in
          ground (arith, inside, h, back, save_words_lem c.pbos memory c.stack size (c.pbos - a))
      | inr outside ↦ ground (arith, outside, h)
    ]

-- A stack with more words than `_stack` has room for is saved past the end of that array.
commit_too_deep :
    (registers tos : ℕ) (memory : ℕ → ℕ) (c : Context)
    → max_stack_size < c.pbos - tos
    → commit registers tos memory c ≡ undefined
unfolding commit get_context save_stack difference
commit_too_deep registers tos memory c h =
    let many : leb (c.pbos - tos) max_stack_size ≡ false = ground (arith, h) in
    rw (le→leb tos c.pbos (omega (arith, h)), many, save_stack) refl

saved_stack :
    (registers tos : ℕ) (memory later : ℕ → ℕ) (c : Context) (i : ℕ)
    → tos ≤ c.pbos
    → save_words c.pbos
        (copy_back (saved registers tos memory c) later)
        (c.pbos - tos)
        (saved registers tos memory c).stack
        i
      ≡ (saved registers tos memory c).stack i
saved_stack registers tos memory later c i h =
    let size : ℕ = c.pbos - tos in
    let stack : (ℕ → ℕ) = (saved registers tos memory c).stack in
    let memory' : (ℕ → ℕ) = copy_back (saved registers tos memory c) later in
    ground (
      arith,
      h,
      save_words_lem c.pbos memory' stack size i,
      save_words_lem c.pbos memory c.stack size i,
      copy_back-saved registers tos memory later c (c.pbos - i) h,
    )

-- After `setcontext`, `getcontext` returns for a second time and the stack is saved once more: from the
-- memory that was put back, this gives the very context there was, so that a transaction can be rolled
-- back to the same point any number of times.
commit-restored :
    (registers tos : ℕ) (memory later : ℕ → ℕ) (c k : Context)
    → tos ≤ c.pbos
    → c.pbos - tos ≤ max_stack_size
    → commit registers tos memory c ≡ ok k
    → commit registers tos (copy_back k later) k ≡ ok k
commit-restored registers tos memory later c k h l e =
    let same = commit_lem registers tos memory c h l in
    let k_saved : saved registers tos memory c ≡ k = cc in
    subst (λ x. commit registers tos (copy_back x later) x ≡ ok x) k_saved
      (commit_lem registers tos (copy_back (saved registers tos memory c) later)
          (saved registers tos memory c) h l
        ∙ (λ i. ok (record (saved registers tos memory c) {
          stack = fun_ext (λ j. saved_stack registers tos memory later c j h) i;
        })))
