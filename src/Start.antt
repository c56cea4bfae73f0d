-- ===== src/Start.antt =====
-- How a process starts: the constructor and `malloc` of src/include/xmemory.h, and the constructor and
-- `initialize` of src/include/xrun.h. What Heap Layers' heaps do is an argument. Until the first
-- `updateAll` both regions are mapped shared and open, so that all stores go straight to the files.
pub mod Fresh
use grace.Prelude.{ℕ, ◌-◌, ◌==◌, Bool, true, false, Option, none, some, [], if◌then◌else◌}
use grace.Result.{Result, ok, aborted, ◌>>=◌}
use grace.Persist.Region.{in_range}
use grace.Persist.Construct.{Answers, construct_globals}
use grace.Heap.{make_rounded}
use grace.Memory.{Shared, Memory}
use grace.Run.{Run, Flow, goes_on, rolls_back, atomic_begin, atomic_end}

-- The answers of the system for the globals and for the heap.
pub record Maps : Type 0 where
  pub globals : Answers
  pub heap : Answers

-- `xmemory ()`. `heap_bytes` are the heap's bytes after the objects of the heap have been made in it.
unfoldable pub make_memory : ℕ → ℕ → (ℕ → ℕ) → ((ℕ → ℕ) → (ℕ → ℕ)) → Maps → Result (Shared × Memory)
unfolding construct_globals make_rounded
make_memory gracestart end old heap_bytes a = do
  (gs, gr) ← construct_globals gracestart end old a.globals
  (hs, h) ← make_rounded a.heap
  ok (
    record { heap = record hs { memory = heap_bytes hs.memory }; globals = gs },
    record { heap = h.adapted.region; globals = gr; pages = [] },
  )

-- A byte stored while both regions are mapped shared.
unfoldable pub store_shared : ℕ → ℕ → Memory → Shared → Shared
unfolding in_range
store_shared addr v m s =
    if in_range m.heap addr
    then record s {
      heap = record s.heap { memory = λ i. if i == addr - m.heap.base then v else s.heap.memory i };
    }
    else if in_range m.globals addr
    then record s {
      globals = record s.globals {
        memory = λ i. if i == addr - m.globals.base then v else s.globals.memory i;
      };
    }
    else s

-- `_heap.malloc`.
abbrev pub HeapMalloc : Type 0
HeapMalloc = ℕ → Shared → Option ℕ × Shared

-- `xmemory::malloc`, while both regions are mapped shared: the first byte of a block is set to 0.
unfoldable pub zero_first : Memory → Option ℕ × Shared → Option ℕ × Shared
unfolding store_shared
zero_first m (none, s) = (none, s)
zero_first m (some ptr, s) = (some ptr, store_shared ptr 0 m s)

unfoldable pub malloc : HeapMalloc → ℕ → Memory → Shared → Option ℕ × Shared
unfolding zero_first
malloc heap_malloc sz m s = zero_first m (heap_malloc sz s)

-- `xrun ()`.
unfoldable pub make_run : Memory → Run
make_run m = record { memory = m; files = []; pred = 0; tid = 0; initialized = false; log = [] }

-- The last call of `initialize`, where the first transaction was not rolled back.
unfoldable pub begin_main : Flow × Shared × Run → Flow × Shared × Run
unfolding atomic_begin
begin_main (goes_on, s, r) = (goes_on, s, atomic_begin r)
begin_main (rolls_back, s, r) = (rolls_back, s, r)

-- `initialize`, in the process `pid`; it is an error to call it twice.
unfoldable pub initialize : ℕ → HeapMalloc → Shared → Run → Result (Flow × Shared × Run)
unfolding malloc atomic_begin begin_main
initialize pid heap_malloc s r = elim r.initialized [
  | true ↦ aborted
  | false ↦
      let r' = atomic_begin (record r { initialized = true; tid = pid }) in
      do ended ← atomic_end (malloc heap_malloc 1 r'.memory s).1 r'; ok (begin_main ended)
]
