-- ===== src/Memory/Instruction.antt =====
-- How the program's loads and stores meet the page protections and the handler of
-- src/include/xmemory.h.
use grace.Prelude.{
  ℕ, zero, suc, ◌+◌, ◌-◌, ◌%◌, ◌<◌, Bool, true, false, Option, none, some, if◌then◌else◌,
}
use grace.Persist.Region.{Access, in_range, compute_page, transient, set_transient}
use grace.Memory.{Shared, Memory, handle_access}

-- A byte of the heap or of the globals, by its offset.
pub data Location : Type 0 where
  heap_at globals_at : ℕ → Location

abbrev pub address : Memory → Location → ℕ
address m (heap_at o) = m.heap.base + o
address m (globals_at o) = m.globals.base + o

abbrev pub Inside : Memory → Location → Type 0
Inside m (heap_at o) = o < m.heap.size
Inside m (globals_at o) = o < m.globals.size

-- The protection that the processor checks. What lies outside both regions is ordinary memory.
unfoldable pub access_at : Memory → ℕ → Access
unfolding in_range
access_at m a =
    if in_range m.heap a
    then m.heap.access (compute_page (a - m.heap.base))
    else if in_range m.globals a
    then m.globals.access (compute_page (a - m.globals.base))
    else Access.read_write

abbrev pub allows_read : Access → Bool
allows_read Access.closed = false
allows_read _ = true

abbrev pub allows_write : Access → Bool
allows_write Access.read_write = true
allows_write _ = false

-- An instruction is tried again after each violation that the handler served; `none` is one that
-- is still refused when the tries are used up.
unfoldable pub settle : ℕ → (Access → Bool) → Shared → ℕ → Memory → Option Memory
settle zero allows s a m = none
settle (suc tries) allows s a m = elim (allows (access_at m a)) [
  | true ↦ some m
  | false ↦ settle tries allows s a (handle_access s a m)
]

-- The byte that a load gives.
unfoldable pub byte_at : Shared → Memory → Location → ℕ
unfolding transient
byte_at s m (heap_at o) = transient s.heap m.heap o
byte_at s m (globals_at o) = transient s.globals m.globals o

-- The effect of a store.
unfoldable pub set_byte : Shared → Location → ℕ → Memory → Memory
unfolding set_transient
set_byte s (heap_at o) v m = record m { heap = set_transient s.heap o (v % 256) m.heap }
set_byte s (globals_at o) v m = record m { globals = set_transient s.globals o (v % 256) m.globals }
