-- ===== src/Tests/Start.antt =====
-- A process whose globals take two pages, and its heap.
use grace.Prelude.{
  ℕ, ◌+◌, ◌≡◌, refl, inr, true, false, Option, none, some, List, [], ◌∷◌, ◌==◌, ltb, if◌then◌else◌,
  arith,
}
use grace.Defines.{page_align_down, page_align_up, heap_size, max_globals_size}
use grace.Result.{ok, aborted}
use grace.Persist.Mapping.{unmodified}
use grace.Persist.Region.{Store, Region, Access, transient}
use grace.Persist.Construct.{
  Answers, copy_start, mapped_at, check_maps, construct, globals_start, globals_end, globals_size,
  construct_globals,
}
use grace.Persist.Built.{construct-keeps}
use grace.Bump.{Bump, mallocs}
use grace.Bump
use grace.Heap.{
  Rounded, source_malloc, make_rounded, rounded_over, HeapType, PpHeap, this_heap, malloc,
}
use grace.Heap.Source.{AllInRange, make_rounded-AllInRange}
use grace.Heap.Isolation.{Call, malloc_by, free_by, performs, malloc-performs}
use grace.Memory.{Shared, Memory, begin}
use grace.Transaction.{Started}
use grace.Run.{Run, began, goes_on}
use grace.Start.{Maps, HeapMalloc, make_memory, make_run, initialize}
use grace.Start
use grace.Start.Fresh.{initialize-Started}

abbrev answers : ℕ → Answers
answers base = record {
  backing_made = true;
  garbage_fd = false;
  sized = true;
  persistent = some 0xA0000000;
  transient = some base;
  persistent_versions = some 0x90000000;
  local_versions = some 0x91000000;
}

abbrev region : ℕ → ℕ → ℕ → Region
region base size start_size = record {
  base = base;
  size = size;
  start_size = start_size;
  is_locked = false;
  read = [];
  dirtied = [];
  is_private = false;
  access = λ p. Access.read_write;
  frames = unmodified;
  local_versions = unmodified;
}

abbrev old : ℕ → ℕ
old i = i + 3

abbrev globals_store : Store
globals_store = record {
  memory = λ i. if ltb i 0x10000 then old i else 0;
  versions = λ p. 0;
  held = false;
}

abbrev globals_base : ℕ
globals_base = 0x08050000

built :
    construct max_globals_size globals_base 0x10000 old (answers globals_base)
    ≡ ok (globals_store, region globals_base max_globals_size 0x10000)
unfolding construct copy_start check_maps mapped_at
built = refl

construct-keeps_example :
    (transient globals_store (region globals_base max_globals_size 0x10000) 5 ≡ old 5)
    × (globals_store.memory 5 ≡ old 5)
construct-keeps_example =
    construct-keeps max_globals_size globals_base 0x10000 old (answers globals_base) globals_store
      (region globals_base max_globals_size 0x10000) (λ e. omega (arith, e)) built 5 (omega arith)

abbrev heap_store : Store
heap_store = record { memory = λ i. 0; versions = λ p. 0; held = false }

abbrev rounded : Rounded
rounded = record {
  adapted = record { region = region 0x40000000 heap_size 0; already_malloced = true };
  bump = record {
    start = 0x40000000;
    position = 0x40000000;
    remaining = heap_size;
    magic = 0xCAFEBABE;
  };
}

abbrev rounded_store : Store
rounded_store = record heap_store { memory = λ i. if ltb i 0 then 0 else 0 }

rounded_made : make_rounded (answers 0x40000000) ≡ ok (rounded_store, rounded)
unfolding make_rounded construct copy_start check_maps mapped_at rounded_over source_malloc
    Bump.make
rounded_made = refl

make_rounded-AllInRange_example :
    ((blocks : List (ℕ × ℕ)) × (b : Bump) × (mallocs (100 ∷ 5000 ∷ []) rounded.bump
        ≡ ok (blocks, b))
      × AllInRange rounded.adapted.region blocks)
    × (source_malloc rounded_store rounded.adapted ≡ (none, rounded_store, rounded.adapted))
make_rounded-AllInRange_example =
    make_rounded-AllInRange (answers 0x40000000) rounded_store rounded 0x40000000 (100 ∷ 5000 ∷ [])
      rounded_made refl refl (omega arith) (omega arith, (omega arith, tt))

abbrev maps : Maps
maps = record { globals = answers globals_base; heap = answers 0x40000000 }

-- The heap's objects leave a 7 at byte 3.
abbrev heap_bytes : (ℕ → ℕ) → (ℕ → ℕ)
heap_bytes f = λ i. if i == 3 then 7 else f i

abbrev shared : Shared
shared = record {
  heap = record rounded_store { memory = heap_bytes rounded_store.memory };
  globals = globals_store;
}

abbrev memory : Memory
memory = record {
  heap = rounded.adapted.region;
  globals = region globals_base max_globals_size 0x10000;
  pages = [];
}

memory_made : make_memory 0x08050010 0x08060001 old heap_bytes maps ≡ ok (shared, memory)
unfolding make_memory construct_globals globals_start globals_end globals_size page_align_down
    page_align_up make_rounded construct copy_start check_maps mapped_at rounded_over source_malloc
    Bump.make
memory_made = refl

abbrev heap_malloc : HeapMalloc
heap_malloc sz s = (some 0x40000010, s)

initialize-Started_example :
    (r : Run) × (initialize 77 heap_malloc shared (make_run memory)
      ≡ ok (goes_on, (Start.malloc heap_malloc 1 (begin memory) shared).1, r))
    × Started r.memory
    × (r.pred ≡ 0)
    × (r.log ≡ began ∷ began ∷ [])
    × ((pid' : ℕ) (s' : Shared) → initialize pid' heap_malloc s' r ≡ aborted)
unfolding globals_start
initialize-Started_example =
    initialize-Started 0x08050010 0x08060001 0x40000000 77 old heap_bytes maps heap_malloc shared
      memory memory_made refl refl refl (inr (omega arith))

-- Heaps with a list of free blocks each, over one position.
free_list : Option ℕ → List ℕ × ℕ → List ℕ × ℕ
free_list none w = w
free_list (some p) (l, n) = (p ∷ l, n)

taken : ℕ → List ℕ × ℕ → Option ℕ × List ℕ × ℕ
taken sz ([], n) = (some n, [], n + sz)
taken sz (p ∷ l, n) = (some p, l, n)

abbrev lists : HeapType (List ℕ) ℕ
lists = record { malloc = taken; free = free_list }

abbrev empty_heaps : PpHeap (List ℕ) ℕ
empty_heaps = record { initialized = false; heap = λ i. []; source = 4096 }

abbrev calls : List Call
calls = malloc_by 20 8 ∷ free_by 20 (some 4096) ∷ malloc_by 36 100 ∷ []

malloc-performs_example :
    (performs lists calls (malloc lists 7 8 empty_heaps).1).heap 7
    ≡ (malloc lists 7 8 empty_heaps).1.heap 7
unfolding this_heap
malloc-performs_example =
    malloc-performs lists 7 8 empty_heaps calls 7
      (λ e. omega (arith, e), (λ e. omega (arith, e), (λ e. omega (arith, e), tt)))
