-- ===== src/Header/Placement.antt =====
-- Where `NewSourceHeap` of src/include/warpheap.h puts header and block, and what it frees.
use grace.Prelude.{ℕ, ◌+◌, ◌-◌, ◌*◌, ◌%◌, ◌^◌, ◌≤◌, ◌<◌, ◌≡◌, ◌≢◌, ap, ◌∙◌, some, arith}
use grace.Defines.{page_align_up}
use grace.Result.{ok}
use grace.Header.{
  Headers, header_magic, put_header, get_object, get_pointer, get_size, is_large, raised, requested,
  place_header, malloc, freed,
}

-- A header that was put is found from the block's pointer.
get_size-put_header :
    (o n : ℕ) (headers : Headers)
    → get_size (put_header o (record { size = n; magic = header_magic }) headers) (get_pointer o)
      ≡ ok n
unfolding get_size put_header get_object get_pointer
get_size-put_header o n headers = ground arith

malloc_lem :
    (sz ptr : ℕ) (headers : Headers)
    → malloc sz (some ptr) headers
      ≡ ok (
        some (get_pointer (place_header (raised sz) ptr)),
        put_header
            (place_header (raised sz) ptr)
            (record { size = raised sz; magic = header_magic })
            headers,
      )
unfolding malloc
malloc_lem sz ptr headers =
    rw (get_size-put_header (place_header (raised sz) ptr) (raised sz) headers) (ground arith)

-- The bounds of the block that is handed out.
placed_inside :
    (sz ptr : ℕ)
    → ptr % 8 ≡ 0
    → ptr % 4096 ≢ 0
    → ptr + sz + 3 * 4096 < 2 ^ 32
    → (sz ≤ raised sz)
      × (ptr + 8 ≤ get_pointer (place_header (raised sz) ptr))
      × (get_pointer (place_header (raised sz) ptr) + sz ≤ ptr + requested sz)
      × (4088 ≤ sz → get_pointer (place_header (raised sz) ptr) % 4096 ≡ 0)
unfolding raised place_header is_large page_align_up requested get_pointer
placed_inside sz ptr e p h = ground arith

placed_before :
    (sz ptr : ℕ)
    → 4088 ≤ sz
    → 0 < ptr
    → ptr % 4096 ≡ 0
    → ptr + sz + 3 * 4096 < 2 ^ 32
    → (raised sz ≡ sz + 4096)
      × (place_header (raised sz) ptr ≡ ptr - 8)
      × (get_pointer (ptr - 8) ≡ ptr)
unfolding raised place_header is_large page_align_up get_pointer
placed_before sz ptr l pos e h = ground arith

-- A block of the source heap at a multiple of 8 that does not start a page, with its end well below
-- 2 ^ 32, has room for the header and for the bytes asked for: both lie inside the block, the size
-- found later is at least what was asked for, and a request of 4088 bytes or more starts a page.
pub malloc-inside :
    (sz ptr : ℕ) (headers : Headers)
    → ptr % 8 ≡ 0
    → ptr % 4096 ≢ 0
    → ptr + sz + 3 * 4096 < 2 ^ 32
    → (q n : ℕ) × (written : Headers) × (malloc sz (some ptr) headers ≡ ok (some q, written))
      × (get_size written q ≡ ok n)
      × (sz ≤ n)
      × (ptr + 8 ≤ q)
      × (q + sz ≤ ptr + requested sz)
      × (4088 ≤ sz → q % 4096 ≡ 0)
malloc-inside sz ptr headers e p h =
    let (big, low, high, page) = placed_inside sz ptr e p h in
    let o = place_header (raised sz) ptr in
    (
      get_pointer o,
      raised sz,
      put_header o (record { size = raised sz; magic = header_magic }) headers,
      malloc_lem sz ptr headers,
      get_size-put_header o (raised sz) headers,
      big,
      low,
      high,
      page,
    )

-- For a request of 4088 bytes or more, let the source heap give a block that starts a page, with its
-- end well below 2 ^ 32: the header is written to the 8 bytes before the block.
header_before_block :
    (sz ptr : ℕ) (headers : Headers)
    → 4088 ≤ sz
    → 0 < ptr
    → ptr % 4096 ≡ 0
    → ptr + sz + 3 * 4096 < 2 ^ 32
    → malloc sz (some ptr) headers
      ≡ ok (
        some ptr,
        put_header (ptr - 8) (record { size = sz + 4096; magic = header_magic }) headers,
      )
header_before_block sz ptr headers l pos e h =
    let (more, place, back) = placed_before sz ptr l pos e h in
    malloc_lem sz ptr headers
    ∙ ap
        (λ x. ok (
          some (get_pointer x),
          put_header x (record { size = raised sz; magic = header_magic }) headers,
        ))
        place
    ∙ ap
        (λ x. ok (
          some x,
          put_header (ptr - 8) (record { size = raised sz; magic = header_magic }) headers,
        ))
        back
    ∙ ap
        (λ x.
          ok (some ptr, put_header (ptr - 8) (record { size = x; magic = header_magic }) headers))
        more

-- A block for 4088 bytes or more that the source heap gave at a multiple of 8, other than 8 bytes
-- before a page, and with its end well below 2 ^ 32, is freed at a different address.
pub freed_elsewhere :
    (sz ptr : ℕ)
    → 4088 ≤ sz
    → ptr % 8 ≡ 0
    → 0 < ptr
    → ptr % 4096 ≢ 4088
    → ptr + sz + 3 * 4096 < 2 ^ 32
    → freed (get_pointer (place_header (raised sz) ptr)) ≢ ptr
unfolding raised place_header is_large page_align_up get_pointer freed get_object
freed_elsewhere sz ptr l e pos p h = ground arith
