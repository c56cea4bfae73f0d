-- ===== src/Libc/Blocks.antt =====
-- What calloc and realloc of src/source/libgrace.cpp do with the bytes of blocks, for any heap that keeps
-- its blocks apart.
use grace.Prelude.{
  ℕ, ◌+◌, ◌*◌, ◌%◌, ◌≤◌, ◌<◌, ◌≡◌, ◌≢◌, refl, sym, ap, ◌∙◌, subst, ◌⊎◌, Option, none, some, arith,
  ltb, if◌then◌else◌,
}
use grace.Defines.{word_mod}
use grace.Libc.{World, Allocator, fill, copy, zeroed, calloc, after_malloc, move_block, realloc}

-- Two blocks with no byte in common.
abbrev pub Apart : ℕ → ℕ → ℕ → ℕ → Type 0
Apart p n q k = (p + n ≤ q) ⊎ (q + k ≤ p)

-- What a heap promises; `Live w p n` says that `p` is a block of `n` usable bytes.
pub record IsAllocator {A : Type 0} (h : Allocator A) (Live : World A → ℕ → ℕ → Type 0)
    : Type 0 where
  -- The usable size is that of the block.
  pub size : {w : World A} {p n : ℕ} → Live w p n → h.usable_size w p ≡ n
  -- A new block has the size asked for.
  pub new_block :
      {w w' : World A} {sz q : ℕ} → h.malloc sz w ≡ (some q, w') → (k : ℕ) × (sz ≤ k) × Live w' q k
  -- A new block touches no block there is: that stays, with its bytes, and lies apart.
  pub others_stay :
      {w w' : World A} {sz q k p n : ℕ}
      → Live w p n
      → h.malloc sz w ≡ (some q, w')
      → Live w' q k
      → Live w' p n × Apart p n q k × ((i : ℕ) → i < n → w'.memory (p + i) ≡ w.memory (p + i))
  -- Writes inside a block touch no block.
  pub writes :
      {w : World A} {q k p n : ℕ} (m : ℕ → ℕ)
      → Live w q k
      → Live w p n
      → ((a : ℕ) → (a < q) ⊎ (q + k ≤ a) → m a ≡ w.memory a)
      → Live (record w { memory = m }) p n
  -- A block that is freed leaves the bytes of the others.
  pub frees :
      {w : World A} {p n q k : ℕ}
      → Live w p n
      → Live w q k
      → Apart p n q k
      → (i : ℕ) → i < k
      → (h.free p w).memory (q + i) ≡ w.memory (q + i)

module _ {A : Type 0} (h : Allocator A) (Live : World A → ℕ → ℕ → Type 0)
    (good : IsAllocator h Live) where
  copy-keeps :
      (q p n k : ℕ) (m : ℕ → ℕ) → n ≤ k → (a : ℕ) → (a < q) ⊎ (q + k ≤ a) → copy q p n m a ≡ m a
  unfolding copy
  copy-keeps q p n k m le a out = ground arith

  copy-copies : (q p n : ℕ) (m : ℕ → ℕ) (i : ℕ) → i < n → copy q p n m (q + i) ≡ m (p + i)
  unfolding copy
  copy-copies q p n m i h = ground arith

  moved :
      (p sz q n : ℕ) (w w₁ : World A)
      → Live w p n
      → h.malloc sz w ≡ (some q, w₁)
      → (i : ℕ) → i < n
      → i < sz
      → (h.free p (record w₁ { memory = copy q p (if ltb n sz then n else sz) w₁.memory })).memory
          (q + i)
        ≡ w.memory (p + i)
  moved p sz q n w w₁ live e i le lt =
      let (k, big, fresh) = good.new_block e in
      let (still, apart, same) = good.others_stay live e fresh in
      let c = if ltb n sz then n else sz in
      let m = copy q p c w₁.memory in
      let keeps = copy-keeps q p c k w₁.memory (ground (arith, big)) in
      let old = good.writes m fresh still keeps in
      let new = good.writes m fresh fresh keeps in
      good.frees old new apart i (omega (arith, lt, big))
      ∙ copy-copies q p c w₁.memory i (ground (arith, le, lt))
      ∙ same i le

  move_block-copies :
      (p sz q n : ℕ) (w w' : World A) (r : Option ℕ × World A)
      → Live w p n
      → h.malloc sz w ≡ r
      → move_block h p sz w ≡ (some q, w')
      → (i : ℕ) → i < n
      → i < sz
      → w'.memory (q + i) ≡ w.memory (p + i)
  unfolding move_block after_malloc
  move_block-copies p sz q n w w' (none, w₁) live e f i le lt = let g = rw e at f in cc
  move_block-copies p sz q n w w' (some q₁, w₁) live e f i le lt =
      let g = rw (e, good.size live) at f in
      subst (λ z. z.memory (q + i) ≡ w.memory (p + i)) (ap (λ z. z.1) g)
        (subst
          (λ z.
            (h.free p
                (record w₁ { memory = copy q₁ p (if ltb n sz then n else sz) w₁.memory })).memory
              (z + i)
            ≡ w.memory (p + i))
          (same_block g) (moved p sz q₁ n w w₁ live e i le lt))
    where
      same_block :
          {x y : ℕ} {u v : World A} → ◌≡◌ {A = Option ℕ × World A} (some x, u) (some y, v) → x ≡ y
      same_block g = cc

  realloc_moves : (p sz : ℕ) (w : World A) → p ≢ 0 → sz ≢ 0 → realloc h p sz w ≡ move_block h p sz w
  unfolding realloc
  realloc_moves p sz w np nsz = ground (arith, np, nsz)

  -- Over a heap that keeps its blocks apart, `realloc` of a block to a size that is not 0: if it gives
  -- a block, that holds the bytes of the old one, up to the smaller of the two sizes.
  pub realloc-copies :
      {w w' : World A} (p sz q n : ℕ)
      → p ≢ 0
      → sz ≢ 0
      → Live w p n
      → realloc h p sz w ≡ (some q, w')
      → (i : ℕ) → i < n
      → i < sz
      → w'.memory (q + i) ≡ w.memory (p + i)
  realloc-copies {w} {w'} p sz q n np nsz live e i le lt =
      move_block-copies p sz q n w w' (h.malloc sz w) live refl
        (sym (realloc_moves p sz w np nsz) ∙ e) i le lt

  calloc_by :
      (total p : ℕ) (w w' : World A) (r : Option ℕ × World A)
      → h.malloc total w ≡ r
      → zeroed total r ≡ (some p, w')
      → ((i : ℕ) → i < total → w'.memory (p + i) ≡ 0)
        × ((q n : ℕ) → Live w q n → (i : ℕ) → i < n → w'.memory (q + i) ≡ w.memory (q + i))
  unfolding zeroed fill
  calloc_by total p w w' (none, w₁) e f = cc
  calloc_by total p w w' (some p₁, w₁) e f =
      let (k, big, fresh) = good.new_block e in
      let same : p₁ ≡ p = cc in
      let memory : (a : ℕ) → w'.memory a ≡ fill p 0 total w₁.memory a =
        λ a. sym (ap (λ z. z.1.memory a) f) ∙ ap (λ x. fill x 0 total w₁.memory a) same in
      (
        λ i lt. memory (p + i) ∙ ground arith,
        λ q n live i lt.
            let (still, apart, kept) = good.others_stay live e fresh in
            memory (q + i) ∙ ground (arith, apart, big, same) ∙ kept i lt,
      )

  -- Over a heap that keeps its blocks apart, a block that `calloc` gives is zero, as far as the
  -- product in a `size_t` goes, and the bytes of every block there was stay.
  calloc-zero :
      {w w' : World A} (c s p : ℕ)
      → calloc h c s w ≡ (some p, w')
      → ((i : ℕ) → i < c * s % word_mod → w'.memory (p + i) ≡ 0)
        × ((q n : ℕ) → Live w q n → (i : ℕ) → i < n → w'.memory (q + i) ≡ w.memory (q + i))
  unfolding calloc
  calloc-zero {w} {w'} c s p e =
      calloc_by (c * s % word_mod) p w w' (h.malloc (c * s % word_mod) w) refl e
