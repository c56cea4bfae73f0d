-- ===== src/Start/Fresh.antt =====
-- The memory of a process after `initialize` of src/include/xrun.h.
use grace.Prelude.{ℕ, ◌+◌, ◌≤◌, ◌%◌, ◌≡◌, refl, sym, ap, ◌∙◌, ◌⊎◌, true, some, [], ◌∷◌, arith}
use grace.Defines.{heap_size, max_globals_size, page_size, page_align_down}
use grace.Result.{ok, aborted, >>=-eq-ok}
use grace.Persist.Region.{Store, Region}
use grace.Persist.Region
use grace.Persist.Construct.{construct_globals, globals_start, mapped_at}
use grace.Persist.Built.{construct_globals-Built}
use grace.Heap.{make_rounded}
use grace.Heap.Source.{make_rounded-Over}
use grace.Memory.{Shared, Memory, update_all, begin, abort, is_nop}
use grace.Memory.Layout.{Layout}
use grace.Transaction.{Started}
use grace.Transaction.Restart.{begin-abort-Started}
use grace.Run.{Run, began, goes_on, atomic_begin}
use grace.Run.Order.{atomic_end-nop}
use grace.Start.{Maps, HeapMalloc, make_memory, malloc, make_run, begin_main, initialize}

-- Where the regions lie that the constructor made.
pub record Places (globals heap : ℕ) (m : Memory) : Type 0 where
  heap_base : m.heap.base ≡ heap
  heap_long : m.heap.size ≡ heap_size
  globals_base : m.globals.base ≡ globals
  globals_long : m.globals.size ≡ max_globals_size

make_memory-Places :
    (gracestart end heap_base : ℕ) (old : ℕ → ℕ) (heap_bytes : (ℕ → ℕ) → (ℕ → ℕ)) (a : Maps)
    (s : Shared) (m : Memory)
    → make_memory gracestart end old heap_bytes a ≡ ok (s, m)
    → a.globals.transient ≡ some (globals_start gracestart)
    → a.heap.transient ≡ some heap_base
    → Places (globals_start gracestart) heap_base m
unfolding make_memory mapped_at
make_memory-Places gracestart end heap_base old heap_bytes a s m e tg th =
    let (g, e₁, e₂) = >>=-eq-ok (construct_globals gracestart end old a.globals) _ e in
    let (h, e₃, e₄) = >>=-eq-ok (make_rounded a.heap) _ e₂ in
    let b = construct_globals-Built gracestart end old a.globals g.0 g.1 e₁ in
    let o = make_rounded-Over a.heap h.0 h.1 heap_base e₃ th in
    let own : h.1.adapted.region ≡ m.heap = cc in
    let other : g.1 ≡ m.globals = cc in
    let there : b.base ≡ globals_start gracestart = cc in
    record {
      heap_base = ap (λ (r : Region). r.base) (sym own) ∙ o.region_base;
      heap_long = ap (λ (r : Region). r.size) (sym own) ∙ o.region_size;
      globals_base =
          ap (λ (r : Region). r.base) (sym other)
          ∙ ap (λ (z : Store × Region). z.1.base) (sym b.made)
          ∙ there;
      globals_long =
          ap (λ (r : Region). r.size) (sym other)
          ∙ ap (λ (z : Store × Region). z.1.size) (sym b.made);
    }

Places-Layout :
    (gracestart heap : ℕ) (m : Memory)
    → Places (globals_start gracestart) heap m
    → heap % page_size ≡ 0
    → (heap + heap_size ≤ globals_start gracestart)
      ⊎ (globals_start gracestart + max_globals_size ≤ heap)
    → Layout m
unfolding globals_start page_align_down
Places-Layout gracestart heap m p aligned apart = record {
  heap_aligned = rw p.heap_base aligned;
  globals_aligned = rw p.globals_base (omega arith);
  heap_pages = rw p.heap_long (omega arith);
  globals_pages = rw p.globals_long (omega arith);
  apart = rw (p.heap_base, p.heap_long, p.globals_base, p.globals_long) apart;
}

updated-Started : (m : Memory) → Layout m → Started (begin (update_all (begin m)))
unfolding begin update_all abort Region.abort
updated-Started m y = begin-abort-Started (begin m) (record {
  heap_aligned = y.heap_aligned;
  globals_aligned = y.globals_aligned;
  heap_pages = y.heap_pages;
  globals_pages = y.globals_pages;
  apart = y.apart;
})

-- The process after `initialize`.
abbrev after_initialize : ℕ → Memory → Run
after_initialize pid m = record {
  memory = begin (update_all (begin m));
  files = [];
  pred = 0;
  tid = pid;
  initialized = true;
  log = began ∷ began ∷ [];
}

initialize_runs :
    (pid : ℕ) (heap_malloc : HeapMalloc) (s : Shared) (m : Memory)
    → initialize pid heap_malloc s (make_run m)
      ≡ ok (goes_on, (malloc heap_malloc 1 (begin m) s).1, after_initialize pid m)
unfolding initialize begin_main atomic_begin make_run
initialize_runs pid heap_malloc s m =
    rw
      (atomic_end-nop (malloc heap_malloc 1 (begin m) s).1
        (atomic_begin (record (make_run m) { initialized = true; tid = pid }))
        (unfold begin is_nop in refl))
      refl

-- Let the constructor of the process's memory return, with the globals mapped at the page of `gracestart`
-- as was asked, and the heap at a page apart from them. `initialize` returns, whatever the heap's
-- `malloc` does to the shared bytes. The first transaction of `main` has then begun: the log
-- says that two transactions have begun, every page of both regions is closed, nothing is recorded,
-- and there is no predecessor. A second call of `initialize` ends the process.
pub initialize-Started :
    (gracestart end heap_base pid : ℕ) (old : ℕ → ℕ) (heap_bytes : (ℕ → ℕ) → (ℕ → ℕ)) (a : Maps)
    (heap_malloc : HeapMalloc) (s : Shared) (m : Memory)
    → make_memory gracestart end old heap_bytes a ≡ ok (s, m)
    → a.globals.transient ≡ some (globals_start gracestart)
    → a.heap.transient ≡ some heap_base
    → heap_base % page_size ≡ 0
    → (heap_base + heap_size ≤ globals_start gracestart)
      ⊎ (globals_start gracestart + max_globals_size ≤ heap_base)
    → (r : Run) × (initialize pid heap_malloc s (make_run m)
        ≡ ok (goes_on, (malloc heap_malloc 1 (begin m) s).1, r))
      × Started r.memory
      × (r.pred ≡ 0)
      × (r.log ≡ began ∷ began ∷ [])
      × ((pid' : ℕ) (s' : Shared) → initialize pid' heap_malloc s' r ≡ aborted)
unfolding initialize
initialize-Started gracestart end heap_base pid old heap_bytes a heap_malloc s m e tg th aligned
      apart =
    let p = make_memory-Places gracestart end heap_base old heap_bytes a s m e tg th in
    let y = Places-Layout gracestart heap_base m p aligned apart in
    (
      after_initialize pid m,
      initialize_runs pid heap_malloc s m,
      updated-Started m y,
      refl,
      refl,
      λ pid' s'. refl,
    )
