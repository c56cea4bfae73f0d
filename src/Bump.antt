-- ===== src/Bump.antt =====
-- src/include/bumpheap.h: a heap that hands out a piece of memory from its start on, and takes nothing
-- back. The start is what the source heap gave.
pub mod Blocks
use grace.Prelude.{
  ℕ, ◌+◌, ◌-◌, ◌*◌, ◌/◌, ◌%◌, Bool, true, false, Option, none, some, List, [], ◌∷◌, ltb, ◌==◌,
  if◌then◌else◌,
}
use grace.Defines.{word_mod}
use grace.Result.{Result, ok, aborted, ◌>>=◌, ◌>>◌, require}

-- The `bumpheap` object.
pub record Bump : Type 0 where
  pub start : ℕ
  pub position : ℕ
  pub remaining : ℕ
  pub magic : ℕ

abbrev pub magic_number : ℕ
magic_number = 0xCAFEBABE

-- `sizeof (double)`.
abbrev pub double_size : ℕ
double_size = 8

-- The constructor, at the address that `Source::malloc (Size)` gave.
unfoldable pub make : ℕ → ℕ → Bump
make size source = record {
  start = source;
  position = source;
  remaining = size;
  magic = magic_number;
}

-- `sanityCheck`.
unfoldable pub sanity_check : Bump → Result (Unit {0})
sanity_check b = require (b.magic == magic_number)

-- A request, rounded up to whole doubles in a `size_t`.
unfoldable pub round_up : ℕ → ℕ
round_up sz =
    let atleast = if ltb sz double_size then double_size else sz in
    (atleast + double_size - 1) % word_mod / double_size * double_size

-- The pointer and the amount, moved by a rounded request.
unfoldable pub take : ℕ → Bump → Bump
take sz b = record b { remaining = b.remaining - sz; position = (b.position + sz) % word_mod }

-- `malloc`; `none` is NULL.
unfoldable pub malloc : ℕ → Bump → Result (Option ℕ × Bump)
unfolding sanity_check take
malloc sz b = do
  sanity_check b
  if ltb b.remaining (round_up sz)
      then ok (none, b)
      else do sanity_check (take (round_up sz) b); ok (some b.position, take (round_up sz) b)

-- `free` and `getSize`, which do nothing but the check.
unfoldable pub free : ℕ → Bump → Result (Unit {0})
unfolding sanity_check
free p b = sanity_check b

unfoldable pub get_size : ℕ → Bump → Result ℕ
unfolding sanity_check
get_size p b = do sanity_check b; ok 0

-- Several requests in a row: the blocks, each with the size that was asked for, without those that
-- were refused.
unfoldable pub mallocs : List ℕ → Bump → Result (List (ℕ × ℕ) × Bump)
mallocs [] b = ok ([], b)
mallocs (sz ∷ szs) b = do
  (p, b') ← malloc sz b
  (blocks, b'') ← mallocs szs b'
  ok (elim p [ none ↦ blocks | some a ↦ (a, sz) ∷ blocks ], b'')
