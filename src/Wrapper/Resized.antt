-- ===== src/Wrapper/Resized.antt =====
-- `realloc` and `strndup` of src/source/wrapper.cpp.
use grace.Prelude.{
  ℕ, zero, suc, ◌+◌, ◌-◌, ◌%◌, ◌≤◌, ◌<◌, ◌≡◌, ◌≢◌, refl, sym, ap, subst, inl, inr, Option, none,
  some, arith, Bool-cases, ◌==◌, if◌then◌else◌,
}
use grace.Defines.{word_mod}
use grace.Libc
use grace.Libc.{World, Allocator}
use grace.Libc.Blocks.{IsAllocator}
use grace.Wrapper.{strnlen, strncpy, ended, malloc_usable_size, moved, realloc, strndup}

moved-eq :
    {A : Type 0} (h : Allocator A) (ptr size sz : ℕ) (r : Option ℕ × World A)
    → moved h ptr size sz r ≡ Libc.after_malloc h ptr size sz r
unfolding moved Libc.after_malloc
moved-eq h ptr size sz (none, w) = refl
moved-eq h ptr size sz (some q, w) = refl

-- `realloc` of src/source/wrapper.cpp and that of src/source/libgrace.cpp are the same function, for any
-- heap, pointer and size.
realloc-eq :
    {A : Type 0} (h : Allocator A) (ptr sz : ℕ) (w : World A)
    → realloc h ptr sz w ≡ Libc.realloc h ptr sz w
unfolding realloc malloc_usable_size Libc.realloc Libc.move_block
realloc-eq h ptr sz w = elim (Bool-cases (ptr == 0)) [
  | inl null ↦ rw null refl
  | inr there ↦ rw there (
      ap (λ z. if sz == 0 then (none, h.free ptr w) else z)
        (moved-eq h ptr (h.usable_size w ptr) sz (h.malloc sz w)))
]

nonzero_before : (m : ℕ → ℕ) (s n i : ℕ) → i < strnlen m s n → m (s + i) ≢ 0
unfolding strnlen
nonzero_before m s zero i h = elim h [ ]
nonzero_before m s (suc n) zero h =
    let here : s ≡ s + 0 = omega arith in subst (λ a. m a ≢ 0) here (λ z. ground (arith, z))
nonzero_before m s (suc n) (suc i) h =
    let there : s + 1 + i ≡ s + suc i = omega arith in
    subst (λ a. m a ≢ 0) there (nonzero_before m (s + 1) n i (ground arith))

strnlen-full : (m : ℕ → ℕ) (s n : ℕ) → ((i : ℕ) → i < n → m (s + i) ≢ 0) → strnlen m s n ≡ n
unfolding strnlen
strnlen-full m s zero f = refl
strnlen-full m s (suc n) f =
    let rest = strnlen-full m (s + 1) n (λ i k. after i (f (suc i) (omega (arith, k)))) in
    let here : s + 0 ≡ s = omega arith in
    let first : m s ≢ 0 = subst (λ a. m a ≢ 0) here (f 0 (omega arith)) in
    ground (arith, rest, first)
  where
    after : (i : ℕ) → m (s + suc i) ≢ 0 → m (s + 1 + i) ≢ 0
    after i d = let there : s + suc i ≡ s + 1 + i = omega arith in subst (λ a. m a ≢ 0) there d

-- The bytes of the string after the call of `malloc`, and what `strndup` makes of them.
ended_copies :
    {A : Type 0} (w₁ w' : World A) (m : ℕ → ℕ) (s l q : ℕ)
    → ((i : ℕ) → i < l → (w₁.memory (s + i) ≡ m (s + i)) × (m (s + i) ≢ 0))
    → ended s l (some q, w₁) ≡ (some q, w')
    → (w'.memory (q + l) ≡ 0) × ((i : ℕ) → i < l → w'.memory (q + i) ≡ m (s + i))
unfolding strncpy
ended_copies w₁ w' m s l q kept e =
    let full =
      strnlen-full w₁.memory s l (λ i k. subst (λ b. b ≢ 0) (sym (kept i k).0) (kept i k).1) in
    let same : record w₁ { memory = λ a. if a == q + l then 0 else strncpy q s l w₁.memory a }
        ≡ w' =
      cc (e) in
    (
      subst (λ z. z.memory (q + l) ≡ 0) same (ground arith),
      λ i k.
          let at : w₁.memory (s + (q + i - q)) ≡ w₁.memory (s + i) =
            ap (λ a. w₁.memory (s + a)) (omega arith) in
          subst (λ z. z.memory (q + i) ≡ m (s + i)) same (ground (arith, full, at, (kept i k).0)),
    )

-- A string that `strndup` gives. Let the string's bytes, up to its end or to `sz` of them, lie in a block of a
-- heap that keeps its blocks apart. Then as many bytes of the new block are those of the string
-- as it had at the call, none of which is 0, and a 0 follows.
strndup-copies :
    {A : Type 0} (h : Allocator A) (Live : World A → ℕ → ℕ → Type 0)
    → IsAllocator h Live
    → (w w' : World A) (s sz n q : ℕ) → Live w s n
    → strnlen w.memory s sz ≤ n
    → strnlen w.memory s sz + 1 < word_mod
    → strndup h s sz w ≡ (some q, w')
    → (w'.memory (q + strnlen w.memory s sz) ≡ 0)
      × ((i : ℕ)
          → i < strnlen w.memory s sz
          → (w'.memory (q + i) ≡ w.memory (s + i)) × (w.memory (s + i) ≢ 0))
unfolding strndup strncpy
strndup-copies h Live good w w' s sz n q live inside room e =
    duplicated (h.malloc ((strnlen w.memory s sz + 1) % word_mod) w) refl (ground arith)
  where
    duplicated :
        (r : Option ℕ × World _)
        → h.malloc ((strnlen w.memory s sz + 1) % word_mod) w ≡ r
        → ended s (strnlen w.memory s sz) r ≡ (some q, w')
        → (w'.memory (q + strnlen w.memory s sz) ≡ 0)
          × ((i : ℕ)
              → i < strnlen w.memory s sz
              → (w'.memory (q + i) ≡ w.memory (s + i)) × (w.memory (s + i) ≢ 0))
    duplicated (none, w₁) f g = cc
    duplicated (some q₁, w₁) f g =
        let l = strnlen w.memory s sz in
        let same : q₁ ≡ q = cc (ap (λ z. z.0) g) in
        let (k, _, fresh) = good.new_block f in
        let (_, _, kept) = good.others_stay live f fresh in
        let nonzero = nonzero_before w.memory s sz in
        let (last, copied) =
          ended_copies w₁ w' w.memory s l q (λ i lt. (kept i (omega (arith, inside)), nonzero i lt))
            (subst (λ x. ended s l (some x, w₁) ≡ (some q, w')) same g) in
        (last, λ i lt. (copied i lt, nonzero i lt))
