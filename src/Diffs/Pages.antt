-- ===== src/Diffs/Pages.antt =====
-- Both ways to write the differences of a page (src/source/testdiffs.cpp).
use grace.Prelude.{ℕ, zero, suc, ◌*◌, ◌/◌, ◌≡◌, sym, ◌∙◌, arith, ltb, ◌==◌, if◌then◌else◌}
use grace.Diffs.{
  bytes_per_page, chunk_size, load_chunk, cmpeq_bytes, xor_ones, mask_move, write_chunk,
  write_chunks, write_diffs, write_bytes, naive_write_diffs,
}

-- What `dest` holds at `b` once the differences below `bound` are written.
abbrev merged : (ℕ → ℕ) → (ℕ → ℕ) → (ℕ → ℕ) → ℕ → ℕ → ℕ
merged local twin dest bound b =
    if ltb b bound then (if local b == twin b then dest b else local b) else dest b

module _ (local twin dest : ℕ → ℕ) where
  write_bytes_lem : (n b : ℕ) → write_bytes local twin n dest b ≡ merged local twin dest n b
  unfolding write_bytes
  write_bytes_lem zero b = ground arith
  write_bytes_lem (suc n) b = ground (arith, write_bytes_lem n b)

  write_chunk_lem :
      (i b : ℕ) (before : ℕ → ℕ)
      → write_chunk local twin i before b ≡ (
          if b / chunk_size == i
          then (if local b == twin b then before b else local b)
          else before b)
  unfolding write_chunk load_chunk cmpeq_bytes xor_ones mask_move
  write_chunk_lem i b before = ground arith

  write_chunks_lem :
      (n b : ℕ) → write_chunks local twin n dest b ≡ merged local twin dest (n * chunk_size) b
  unfolding write_chunks
  write_chunks_lem zero b = ground arith
  write_chunks_lem (suc n) b =
      write_chunk_lem n b (write_chunks local twin n dest) ∙ ground (arith, write_chunks_lem n b)

-- Either way, a byte of the page becomes the local one if that differs from the twin's, and every
-- other byte, in the page or outside, stays.
pub write_diffs-merged :
    (local twin dest : ℕ → ℕ) (b : ℕ)
    → (write_diffs local twin dest b ≡ (
        if ltb b bytes_per_page then (if local b == twin b then dest b else local b) else dest b))
      × (naive_write_diffs local twin dest b ≡ write_diffs local twin dest b)
unfolding write_diffs naive_write_diffs
write_diffs-merged local twin dest b =
    let fast = write_chunks_lem local twin dest 256 b in
    (fast, write_bytes_lem local twin dest 4096 b ∙ sym fast)
