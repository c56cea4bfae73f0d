-- ===== src/Header.antt =====
-- `NewSourceHeap` of src/include/warpheap.h: a header in front of each block, and large blocks at the
-- start of a page. The source heap is an argument, by the address that it answers.
pub mod Placement
use grace.Prelude.{
  ℕ, ◌+◌, ◌-◌, ◌%◌, Bool, true, false, Option, none, some, leb, ◌==◌, if◌then◌else◌,
}
use grace.Defines.{word_mod, page_align_up}
use grace.Result.{Result, ok, ◌>>=◌, ◌>>◌, require}

-- `objectHeader`, and its size in bytes.
pub record ObjectHeader : Type 0 where
  pub size : ℕ
  pub magic : ℕ

abbrev pub header_size : ℕ
header_size = 8

abbrev pub header_magic : ℕ
header_magic = 0xCAFEBABE

-- The headers in memory, by address.
abbrev pub Headers : Type 0
Headers = ℕ → ObjectHeader

unfoldable pub put_header : ℕ → ObjectHeader → Headers → Headers
put_header o header headers = λ a. if a == o then header else headers a

-- `getObject` and `getPointer`.
unfoldable pub get_object : ℕ → ℕ
get_object ptr = ptr - header_size

unfoldable pub get_pointer : ℕ → ℕ
get_pointer o = o + header_size

-- `getSize`, which stops the process at a header that is none.
unfoldable pub get_size : Headers → ℕ → Result ℕ
unfolding get_object
get_size headers ptr = do
  require ((headers (get_object ptr)).magic == header_magic)
  ok (headers (get_object ptr)).size

-- A size for which the block is put at a page: a whole page less the header, or more.
unfoldable pub is_large : ℕ → Bool
is_large sz = leb (4096 - header_size) sz

-- The size as `malloc` raises it.
unfoldable pub raised : ℕ → ℕ
unfolding is_large
raised sz = if is_large sz then (sz + 4096) % word_mod else sz

-- What is asked of the source heap.
unfoldable pub requested : ℕ → ℕ
unfolding raised
requested sz = (raised sz + header_size) % word_mod

-- Where the header is put in a block from `ptr` on.
unfoldable pub place_header : ℕ → ℕ → ℕ
unfolding is_large page_align_up
place_header sz ptr = if is_large sz then page_align_up ptr - header_size else ptr

-- `malloc`, when the source heap answers `given` to `requested sz`; `none` is NULL.
unfoldable pub malloc : ℕ → Option ℕ → Headers → Result (Option ℕ × Headers)
unfolding raised place_header put_header get_pointer get_size
malloc sz none headers = ok (none, headers)
malloc sz (some ptr) headers = do
  let o = place_header (raised sz) ptr
  let written = put_header o (record { size = raised sz; magic = header_magic }) headers
  size ← get_size written (get_pointer o)
  require (leb (raised sz) size)
  ok (some (get_pointer o), written)

-- `free`: the address that is handed to the source heap.
unfoldable pub freed : ℕ → ℕ
unfolding get_object
freed ptr = get_object ptr
