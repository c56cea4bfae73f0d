-- ===== src/Diffs.antt =====
-- src/source/testdiffs.cpp: the bytes of a page that differ from its twin are written to a third page,
-- byte by byte or sixteen bytes at a time. A buffer is a function of the byte's index. The SSE2
-- operations are those on the sixteen bytes of a register.
pub mod Pages
use grace.Prelude.{ℕ, zero, suc, ◌+◌, ◌-◌, ◌*◌, ◌/◌, ◌%◌, leb, ◌==◌, if◌then◌else◌}

-- `PAGE_SIZE`, and `sizeof (__m128i)`.
abbrev pub bytes_per_page : ℕ
bytes_per_page = 4096

abbrev pub chunk_size : ℕ
chunk_size = 16

-- An `__m128i`, by its bytes.
abbrev pub Chunk : Type 0
Chunk = ℕ → ℕ

-- `_mm_load_si128` of chunk `i` of a buffer.
unfoldable pub load_chunk : (ℕ → ℕ) → ℕ → Chunk
load_chunk buf i = λ j. buf (i * chunk_size + j)

-- `_mm_cmpeq_epi8`.
unfoldable pub cmpeq_bytes : Chunk → Chunk → Chunk
cmpeq_bytes a b = λ j. if a j == b j then 255 else 0

-- `_mm_xor_si128` with a register whose bits are all one.
unfoldable pub xor_ones : Chunk → Chunk
xor_ones a = λ j. 255 - a j

-- `_mm_maskmoveu_si128`: a byte is stored if the highest bit of its mask is set.
unfoldable pub mask_move : Chunk → Chunk → ℕ → (ℕ → ℕ) → (ℕ → ℕ)
mask_move value mask i dest = λ b.
    if b / chunk_size == i
    then (if leb 128 (mask (b % chunk_size)) then value (b % chunk_size) else dest b)
    else dest b

-- The body of the loop of `writeDiffs`.
unfoldable pub write_chunk : (ℕ → ℕ) → (ℕ → ℕ) → ℕ → (ℕ → ℕ) → (ℕ → ℕ)
unfolding load_chunk cmpeq_bytes xor_ones mask_move
write_chunk local twin i dest =
    let local_chunk = load_chunk local i in
    let twin_chunk = load_chunk twin i in
    mask_move local_chunk (xor_ones (cmpeq_bytes local_chunk twin_chunk)) i dest

-- Its first `n` rounds.
unfoldable pub write_chunks : (ℕ → ℕ) → (ℕ → ℕ) → ℕ → (ℕ → ℕ) → (ℕ → ℕ)
unfolding write_chunk
write_chunks local twin zero dest = dest
write_chunks local twin (suc n) dest = write_chunk local twin n (write_chunks local twin n dest)

-- `writeDiffs`.
unfoldable pub write_diffs : (ℕ → ℕ) → (ℕ → ℕ) → (ℕ → ℕ) → (ℕ → ℕ)
write_diffs local twin dest = write_chunks local twin (bytes_per_page / chunk_size) dest

-- The first `n` rounds of the loop of `naiveWriteDiffs`.
unfoldable pub write_bytes : (ℕ → ℕ) → (ℕ → ℕ) → ℕ → (ℕ → ℕ) → (ℕ → ℕ)
write_bytes local twin zero dest = dest
write_bytes local twin (suc n) dest =
    let before = write_bytes local twin n dest in
    if local n == twin n then before else (λ b. if b == n then local n else before b)

-- `naiveWriteDiffs`.
unfoldable pub naive_write_diffs : (ℕ → ℕ) → (ℕ → ℕ) → (ℕ → ℕ) → (ℕ → ℕ)
naive_write_diffs local twin dest = write_bytes local twin bytes_per_page dest
