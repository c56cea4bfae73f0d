-- ===== src/Heap.antt =====
-- The heap of a process: src/include/graceheap.h, src/include/roundup.h, src/include/xadaptheap.h and
-- src/include/ppheap.h. The heaps of Heap Layers that stand between them are an argument, by what
-- `malloc` and `free` do.
pub mod Source
pub mod Isolation
use grace.Prelude.{
  ℕ, zero, suc, ◌+◌, ◌-◌, ◌*◌, ◌/◌, ◌%◌, Bool, true, false, Option, none, some, List, [], ◌∷◌, ◌==◌,
  if◌then◌else◌,
}
use grace.Defines.{heap_size, num_heaps}
use grace.Result.{Result, ok, undefined, ◌>>=◌}
use grace.Persist.Region.{Store, Region}
use grace.Persist.Commit.{commit_memory}
use grace.Persist.Construct.{Answers, construct}
use grace.Bump.{Bump}
use grace.Bump

-- `AdaptToXpersist` over the persistent region.
pub record Adapted : Type 0 where
  pub region : Region
  pub already_malloced : Bool

-- `AdaptToXpersist::malloc`; `none` is NULL.
unfoldable pub source_malloc : Store → Adapted → Option ℕ × Store × Adapted
unfolding commit_memory
source_malloc s a =
    if a.already_malloced
    then (none, s, a)
    else (some a.region.base, commit_memory s a.region, record a { already_malloced = true })

-- A pointer as a number.
abbrev pub pointer : Option ℕ → ℕ
pointer none = 0
pointer (some p) = p

-- `roundedHeap`, once it is made: the region, and the bump heap over the memory that it gives.
pub record Rounded : Type 0 where
  pub adapted : Adapted
  pub bump : Bump

unfoldable pub rounded_over : Store × Region → Store × Rounded
unfolding source_malloc Bump.make
rounded_over (s, r) =
    let (p, s', adapted) = source_malloc s (record { region = r; already_malloced = false }) in
    (s', record { adapted = adapted; bump = Bump.make heap_size (pointer p) })

unfoldable pub make_rounded : Answers → Result (Store × Rounded)
unfolding construct rounded_over
make_rounded a = do made ← construct heap_size 0 0 (λ i. 0) a; ok (rounded_over made)

-- `SIZE` of `roundup`, and the size of the class with it.
unfoldable pub padding : ℕ → ℕ → ℕ
padding size parent = size * ((parent + size - 1) / size) - parent

unfoldable pub rounded_size : ℕ → ℕ → ℕ
unfolding padding
rounded_size size parent = parent + padding size parent

-- A heap with a state of its own over a source that all heaps share: `malloc` and `free`.
pub record HeapType (A S : Type 0) : Type 0 where
  pub malloc : ℕ → A × S → Option ℕ × A × S
  pub free : Option ℕ → A × S → A × S

-- `xadaptheap`: the heap object stands in memory of the source, which is used whether or not the source
-- had any.
unfoldable pub adapt : {A : Type 0} → Option ℕ → A → Result (ℕ × A)
adapt none heap = undefined
adapt (some p) heap = ok (p, heap)

-- `PPHeap`: `heap` is the array `_heap`.
pub record PpHeap (A S : Type 0) : Type 0 where
  pub initialized : Bool
  pub heap : ℕ → A
  pub source : S

-- `thisHeap`, where `pthread_self` is the process id.
unfoldable pub this_heap : ℕ → ℕ
this_heap pid = pid % num_heaps

-- `_heap[ind]` and the source, as they are set.
abbrev pub set_heap : {A S : Type 0} → ℕ → A × S → PpHeap A S → PpHeap A S
set_heap ind (a, s) h = record h { heap = λ i. if i == ind then a else h.heap i; source = s }

module _ {A S : Type 0} (type : HeapType A S) where
  -- The first `n` rounds of the loop in `malloc`.
  unfoldable pub touch_heaps : ℕ → PpHeap A S → PpHeap A S
  touch_heaps zero h = h
  touch_heaps (suc i) h =
      let before = touch_heaps i h in
      let (p, a, s) = type.malloc 8 (before.heap i, before.source) in
      set_heap i (type.free p (a, s)) before

  unfoldable pub ready : PpHeap A S → PpHeap A S
  ready h = if h.initialized then h else record (touch_heaps num_heaps h) { initialized = true }

  -- `PPHeap::malloc` by the process `pid`.
  unfoldable pub malloc : ℕ → ℕ → PpHeap A S → Option ℕ × PpHeap A S
  unfolding this_heap
  malloc pid sz h =
      let ready_heap = ready h in
      let (p, a, s) = type.malloc sz (ready_heap.heap (this_heap pid), ready_heap.source) in
      (p, set_heap (this_heap pid) (a, s) ready_heap)

  -- `PPHeap::free` by the process `pid`.
  unfoldable pub free : ℕ → Option ℕ → PpHeap A S → PpHeap A S
  unfolding this_heap
  free pid p h = set_heap (this_heap pid) (type.free p (h.heap (this_heap pid), h.source)) h
