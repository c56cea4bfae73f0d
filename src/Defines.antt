-- ===== src/Defines.antt =====
-- src/include/xdefines.h and the page arithmetic of src/include/xglobals.h. Addresses are numbers;
-- `x & ~(k - 1)` at a power of two k is written `x / k * k`.
use grace.Prelude.{ℕ, ◌+◌, ◌-◌, ◌*◌, ◌/◌, ◌%◌, ◌^◌}

-- `PageSize`.
abbrev pub page_size : ℕ
page_size = 4096

abbrev pub page_size_mask : ℕ
page_size_mask = page_size - 1

-- `sizeof(int)`.
abbrev pub int_size : ℕ
int_size = 4

-- `HEAP_SIZE`.
abbrev pub heap_size : ℕ
heap_size = 1048576 * 512

-- `NUM_HEAPS`.
abbrev pub num_heaps : ℕ
num_heaps = 16

-- `MAXSIZE` of xglobals.h.
abbrev pub max_globals_size : ℕ
max_globals_size = 104857600

-- The values of a `size_t` in a 32-bit build, the only one that Grace supports.
abbrev pub word_mod : ℕ
word_mod = 2 ^ 32

-- `PAGE_ALIGN_DOWN`.
unfoldable pub page_align_down : ℕ → ℕ
page_align_down x = x / page_size * page_size

-- `PAGE_ALIGN_UP`.
unfoldable pub page_align_up : ℕ → ℕ
page_align_up x = (x + page_size_mask) % word_mod / page_size * page_size
