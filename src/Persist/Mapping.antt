-- ===== src/Persist/Mapping.antt =====
-- The private mappings (`mmap` with `MAP_PRIVATE`) that src/include/xpersist.h works on: a frame of
-- the mapping shows the file until it is first written, and from then on the process's own copy.
use grace.Prelude.{ℕ, ◌+◌, ◌/◌, ◌≡◌, Bool, true, false, ◌&&◌, arith, ltb, leb, ◌==◌, if◌then◌else◌}

-- Whether a frame has been copied, and the items of the copies.
pub record Mapping : Type 0 where
  pub copied : ℕ → Bool
  pub items : ℕ → ℕ

-- A mapping just made.
abbrev pub unmodified : Mapping
unmodified = record { copied = λ _. false; items = λ _. 0 }

-- What the process reads at item `i`; a frame holds `n` items.
unfoldable pub view : ℕ → (ℕ → ℕ) → Mapping → ℕ → ℕ
view n file m i = if m.copied (i / n) then m.items i else file i

-- A write of item `i` copies its frame first, if it has not been copied.
unfoldable pub poke : ℕ → (ℕ → ℕ) → Mapping → ℕ → ℕ → Mapping
poke n file m i v = record {
  copied = λ f. if f == i / n then true else m.copied f;
  items = λ j.
      if j == i
      then v
      else if j / n == i / n
      then (if m.copied (i / n) then m.items j else file j)
      else m.items j;
}

-- `madvise (first, …, MADV_DONTNEED)`: the copies of `count` frames are thrown away.
unfoldable pub discard : ℕ → ℕ → Mapping → Mapping
discard first count m = record m {
  copied = λ f. if leb first f && ltb f (first + count) then false else m.copied f;
}

module _ (n : ℕ) (file : ℕ → ℕ) (m : Mapping) where
  pub view-poke :
      (i v j : ℕ) → view n file (poke n file m i v) j ≡ (if j == i then v else view n file m j)
  unfolding view poke
  view-poke i v j = ground arith

  -- The same seen over another file that has the same items on the frame that is written.
  pub view-poke_other :
      (other : ℕ → ℕ) (i v : ℕ)
      → ((j : ℕ) → j / n ≡ i / n → other j ≡ file j)
      → (j : ℕ) → view n other (poke n file m i v) j ≡ (if j == i then v else view n other m j)
  unfolding view poke
  view-poke_other other i v same j = ground (arith, same j)
