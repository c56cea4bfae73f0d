-- ===== src/Memory/Layout.antt =====
-- Where the regions lie, and what the handler does at an address of each.
use grace.Prelude.{
  ℕ, ◌+◌, ◌-◌, ◌*◌, ◌/◌, ◌%◌, ◌≤◌, ◌<◌, ◌≡◌, refl, ap, ◌∙◌, ◌⊎◌, true, false, List, arith,
}
use grace.Defines.{page_size, page_align_down}
use grace.Persist.PageSet.{insert, has, has-insert}
use grace.Persist.Region.{Region, Access, in_range, protect}
use grace.Persist.Isolation.{open_to_read, open_to_write, protect-record_read, protect-record_write}
use grace.Persist.Region
use grace.Memory.{
  Shared, Memory, handle_access, page_seen, add_page, protect_page, record_read, record_write,
}

-- `mmap` gives page-aligned areas that do not overlap; both sizes are multiples of a page.
pub record Layout (m : Memory) : Type 0 where
  pub heap_aligned : m.heap.base % page_size ≡ 0
  pub globals_aligned : m.globals.base % page_size ≡ 0
  pub heap_pages : m.heap.size % page_size ≡ 0
  pub globals_pages : m.globals.size % page_size ≡ 0
  pub apart :
      (m.heap.base + m.heap.size ≤ m.globals.base) ⊎ (m.globals.base + m.globals.size ≤ m.heap.base)

-- Of an area of memory exactly the pages read are among the pages seen.
abbrev pub Seen : Region → List ℕ → Type 0
Seen r pages =
    (o : ℕ) → o < r.size → has (page_align_down (r.base + o)) pages ≡ has (o / page_size) r.read

pub Seen-insert_own :
    (r r' : Region) (pages : List ℕ) (o : ℕ)
    → r.base % page_size ≡ 0
    → Seen r pages
    → r'.base ≡ r.base
    → r'.size ≡ r.size
    → r'.read ≡ insert (o / page_size) r.read
    → Seen r' (insert (page_align_down (r.base + o)) pages)
unfolding page_align_down
Seen-insert_own r r' pages o aligned seen same_base same_size more i h = ground (
  arith,
  seen i,
  ap (λ l. has (i / page_size) l) more,
  has-insert (i / page_size) (o / page_size) r.read,
  has-insert ((r.base + i) / page_size * page_size) ((r.base + o) / page_size * page_size) pages,
)

-- A page of the other area changes nothing.
pub Seen-insert_other :
    (r : Region) (pages : List ℕ) (a : ℕ)
    → r.base % page_size ≡ 0
    → r.size % page_size ≡ 0
    → (a < r.base) ⊎ (r.base + r.size ≤ a)
    → Seen r pages
    → Seen r (insert (page_align_down a) pages)
unfolding page_align_down
Seen-insert_other r pages a aligned whole apart seen i h = ground (
  arith,
  seen i,
  has-insert ((r.base + i) / page_size * page_size) (a / page_size * page_size) pages,
)

-- An area's address, and the page that holds it, lie in the area.
in_range-own :
    (r : Region) (o : ℕ)
    → r.base % page_size ≡ 0
    → o < r.size
    → (in_range r (r.base + o) ≡ true) × (in_range r (page_align_down (r.base + o)) ≡ true)
unfolding in_range page_align_down
in_range-own r o aligned h = ground arith

in_range-other :
    (r : Region) (a : ℕ)
    → r.base % page_size ≡ 0
    → r.size % page_size ≡ 0
    → (a < r.base) ⊎ (r.base + r.size ≤ a)
    → (in_range r a ≡ false) × (in_range r (page_align_down a) ≡ false)
unfolding in_range page_align_down
in_range-other r a aligned whole apart = ground arith

page_offset :
    (b o : ℕ) → b % page_size ≡ 0 → (page_align_down (b + o) - b) / page_size ≡ o / page_size
unfolding page_align_down
page_offset b o aligned = omega arith

pub apart_globals :
    {m : Memory} (o : ℕ)
    → Layout m
    → o < m.globals.size
    → (m.globals.base + o < m.heap.base) ⊎ (m.heap.base + m.heap.size ≤ m.globals.base + o)
apart_globals o y h = ground (arith, y.apart)

in_range-protect : (p a : ℕ) (x : Access) (r : Region) → in_range (protect p x r) a ≡ in_range r a
unfolding in_range protect
in_range-protect p a x r = refl

-- Which region an address or a page belongs to decides what each call touches.
module _ (m : Memory) (a : ℕ) where
  module _ (own : in_range m.heap a ≡ true) where
    protect_page-own :
        (x : Access)
        → protect_page a x m ≡ record m { heap = protect ((a - m.heap.base) / page_size) x m.heap }
    unfolding protect_page
    protect_page-own x = rw own

    record_read-own :
        (s : Shared) → record_read s a m ≡ record m { heap = Region.record_read s.heap a m.heap }
    unfolding record_read
    record_read-own s = rw own

    record_write-own : record_write a m ≡ record m { heap = Region.record_write a m.heap }
    unfolding record_write
    record_write-own = rw own

  module _ (other : in_range m.heap a ≡ false) (own : in_range m.globals a ≡ true) where
    protect_page-other :
        (x : Access)
        → protect_page a x m
          ≡ record m { globals = protect ((a - m.globals.base) / page_size) x m.globals }
    unfolding protect_page
    protect_page-other x = rw (other, own)

    record_read-other :
        (s : Shared)
        → record_read s a m ≡ record m { globals = Region.record_read s.globals a m.globals }
    unfolding record_read
    record_read-other s = rw (other, own)

    record_write-other : record_write a m ≡ record m { globals = Region.record_write a m.globals }
    unfolding record_write
    record_write-other = rw (other, own)

module _ (m : Memory) (s : Shared) (o : ℕ) (y : Layout m) (h : o < m.heap.size) where
  abbrev addr : ℕ
  addr = m.heap.base + o

  own_page : (in_range m.heap addr ≡ true) × (in_range m.heap (page_align_down addr) ≡ true)
  own_page = in_range-own m.heap o y.heap_aligned h

  -- The handler at an address of the heap whose page was seen in this transaction.
  pub handle_access-heap_seen :
      has (page_align_down (m.heap.base + o)) m.pages ≡ true
      → handle_access s (m.heap.base + o) m
        ≡ record m { heap = open_to_write (o / page_size) m.heap }
  unfolding handle_access page_seen
  handle_access-heap_seen e = rw (
    e,
    protect_page-own m (page_align_down addr) own_page.1 Access.read_write,
    page_offset m.heap.base o y.heap_aligned,
    record_write-own (record m { heap = protect (o / page_size) Access.read_write m.heap }) addr
        (in_range-protect (o / page_size) addr Access.read_write m.heap ∙ own_page.0),
    protect-record_write m.heap o h,
  )

  -- At an address whose page was not seen.
  pub handle_access-heap_new :
      has (page_align_down (m.heap.base + o)) m.pages ≡ false
      → handle_access s (m.heap.base + o) m ≡ record m {
        heap = open_to_read s.heap (o / page_size) m.heap;
        pages = insert (page_align_down (m.heap.base + o)) m.pages;
      }
  unfolding handle_access page_seen add_page
  handle_access-heap_new e =
      let more = record m { pages = insert (page_align_down addr) m.pages } in
      rw (
        e,
        protect_page-own more (page_align_down addr) own_page.1 Access.read_only,
        page_offset m.heap.base o y.heap_aligned,
        record_read-own (record more { heap = protect (o / page_size) Access.read_only m.heap })
            addr (in_range-protect (o / page_size) addr Access.read_only m.heap ∙ own_page.0) s,
        protect-record_read s.heap m.heap o h,
      )

module _ (m : Memory) (s : Shared) (o : ℕ) (y : Layout m) (h : o < m.globals.size) where
  abbrev global : ℕ
  global = m.globals.base + o

  global_page :
      (in_range m.globals global ≡ true) × (in_range m.globals (page_align_down global) ≡ true)
  global_page = in_range-own m.globals o y.globals_aligned h

  not_heap : (in_range m.heap global ≡ false) × (in_range m.heap (page_align_down global) ≡ false)
  not_heap = in_range-other m.heap global y.heap_aligned y.heap_pages (apart_globals o y h)

  -- The handler at an address of the globals whose page was seen in this transaction.
  pub handle_access-globals_seen :
      has (page_align_down (m.globals.base + o)) m.pages ≡ true
      → handle_access s (m.globals.base + o) m
        ≡ record m { globals = open_to_write (o / page_size) m.globals }
  unfolding handle_access page_seen
  handle_access-globals_seen e = rw (
    e,
    protect_page-other m (page_align_down global) not_heap.1 global_page.1 Access.read_write,
    page_offset m.globals.base o y.globals_aligned,
    record_write-other (record m { globals = protect (o / page_size) Access.read_write m.globals })
        global not_heap.0
        (in_range-protect (o / page_size) global Access.read_write m.globals ∙ global_page.0),
    protect-record_write m.globals o h,
  )

  -- At an address whose page was not seen.
  pub handle_access-globals_new :
      has (page_align_down (m.globals.base + o)) m.pages ≡ false
      → handle_access s (m.globals.base + o) m ≡ record m {
        globals = open_to_read s.globals (o / page_size) m.globals;
        pages = insert (page_align_down (m.globals.base + o)) m.pages;
      }
  unfolding handle_access page_seen add_page
  handle_access-globals_new e =
      let more = record m { pages = insert (page_align_down global) m.pages } in
      rw (
        e,
        protect_page-other more (page_align_down global) not_heap.1 global_page.1 Access.read_only,
        page_offset m.globals.base o y.globals_aligned,
        record_read-other
            (record more { globals = protect (o / page_size) Access.read_only m.globals }) global
            not_heap.0
            (in_range-protect (o / page_size) global Access.read_only m.globals ∙ global_page.0) s,
        protect-record_read s.globals m.globals o h,
      )
