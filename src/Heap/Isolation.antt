-- ===== src/Heap/Isolation.antt =====
-- Which heap of src/include/ppheap.h a process works on.
use grace.Prelude.{ℕ, ◌≡◌, ◌≢◌, refl, ◌∙◌, true, Option, List, [], ◌∷◌, arith}
use grace.Heap.{HeapType, PpHeap, this_heap, ready, malloc, free}

-- A call of `malloc` or `free` by a process.
pub data Call : Type 0 where
  malloc_by : ℕ → ℕ → Call
  free_by : ℕ → Option ℕ → Call

abbrev pub caller : Call → ℕ
caller (malloc_by pid sz) = pid
caller (free_by pid p) = pid

-- None of the callers has the heap `ind`.
abbrev pub AllOthers : ℕ → List Call → Type 0
AllOthers ind [] = Unit {0}
AllOthers ind (c ∷ calls) = (this_heap (caller c) ≢ ind) × AllOthers ind calls

module _ {A S : Type 0} (type : HeapType A S) where
  unfoldable pub perform : Call → PpHeap A S → PpHeap A S
  unfolding malloc free
  perform (malloc_by pid sz) h = (malloc type pid sz h).1
  perform (free_by pid p) h = free type pid p h

  unfoldable pub performs : List Call → PpHeap A S → PpHeap A S
  unfolding perform
  performs [] h = h
  performs (c ∷ calls) h = performs calls (perform c h)

  malloc_initialized : (pid sz : ℕ) (h : PpHeap A S) → (malloc type pid sz h).1.initialized ≡ true
  unfolding malloc ready
  malloc_initialized pid sz h = ground arith

  ready_same : (h : PpHeap A S) → h.initialized ≡ true → ready type h ≡ h
  unfolding ready
  ready_same h i = rw (i, ready) refl

  kept :
      (c : Call) (h : PpHeap A S) (ind : ℕ)
      → h.initialized ≡ true
      → this_heap (caller c) ≢ ind
      → ((perform c h).initialized ≡ true) × ((perform c h).heap ind ≡ h.heap ind)
  unfolding perform malloc free
  kept (malloc_by pid sz) h ind i other = rw (ready_same h i) (i, ground (arith, other))
  kept (free_by pid p) h ind i other = (i, ground (arith, other))

  performs-heap :
      (calls : List Call) (h : PpHeap A S) (ind : ℕ)
      → h.initialized ≡ true
      → AllOthers ind calls
      → (performs calls h).heap ind ≡ h.heap ind
  unfolding performs
  performs-heap [] h ind i others = refl
  performs-heap (c ∷ calls) h ind i (other, others) =
      let (i', same) = kept c h ind i other in
      performs-heap calls (perform c h) ind i' others ∙ same

  -- From the first `malloc` of any process on, a heap of the array stays as it is under any calls of
  -- processes whose ids name other heaps, a block that was allocated from it and is freed by such a
  -- process included.
  pub malloc-performs :
      (pid sz : ℕ) (h : PpHeap A S) (calls : List Call) (ind : ℕ)
      → AllOthers ind calls
      → (performs calls (malloc type pid sz h).1).heap ind ≡ (malloc type pid sz h).1.heap ind
  malloc-performs pid sz h calls ind others =
      performs-heap calls (malloc type pid sz h).1 ind (malloc_initialized pid sz h) others
