-- ===== src/Libc.antt =====
-- src/source/libgrace.cpp: the C library's heap functions, over the heap of the process. That heap comes
-- from Heap Layers and is an argument here, by its three operations.
pub mod Blocks
pub mod Threads
pub mod Printing
pub mod Joins
use grace.Prelude.{
  ℕ, ◌+◌, ◌-◌, ◌*◌, ◌%◌, Bool, true, false, ◌&&◌, Option, none, some, ltb, leb, ◌==◌, if◌then◌else◌,
}
use grace.Defines.{word_mod}

-- The bytes of the process, and what the heap knows of its blocks.
pub record World (A : Type 0) : Type 0 where
  pub memory : ℕ → ℕ
  pub blocks : A

-- `gracemalloc`, `gracefree` and `gracemalloc_usable_size`; `none` is NULL.
pub record Allocator (A : Type 0) : Type 0 where
  pub malloc : ℕ → World A → Option ℕ × World A
  pub free : ℕ → World A → World A
  pub usable_size : World A → ℕ → ℕ

-- `memset (p, value, n)`.
unfoldable pub fill : ℕ → ℕ → ℕ → (ℕ → ℕ) → (ℕ → ℕ)
fill p value n m = λ a. if leb p a && ltb a (p + n) then value else m a

-- `memcpy (q, p, n)`.
unfoldable pub copy : ℕ → ℕ → ℕ → (ℕ → ℕ) → (ℕ → ℕ)
copy q p n m = λ a. if leb q a && ltb a (q + n) then m (p + (a - q)) else m a

-- The end of `calloc`: a block that was given is filled with zeros.
unfoldable pub zeroed : {A : Type 0} → ℕ → Option ℕ × World A → Option ℕ × World A
unfolding fill
zeroed n (none, w) = (none, w)
zeroed n (some p, w) = (some p, record w { memory = fill p 0 n w.memory })

-- What an operator `new` comes to: a block, or the exception `bad_alloc`.
pub data Made (A : Type 0) : Type 0 where
  made : ℕ → World A → Made A
  bad_alloc : World A → Made A

unfoldable pub or_throw : {A : Type 0} → Option ℕ × World A → Made A
or_throw (none, w) = bad_alloc w
or_throw (some p, w) = made p w

module _ {A : Type 0} (h : Allocator A) where
  -- `calloc`: the product is taken in a `size_t`.
  unfoldable pub calloc : ℕ → ℕ → World A → Option ℕ × World A
  unfolding zeroed
  calloc n s w = zeroed (n * s % word_mod) (h.malloc (n * s % word_mod) w)

  -- `realloc` of a block of usable size `s`, after the call of `gracemalloc`: the old block is freed
  -- whether or not there is a new one.
  unfoldable pub after_malloc : ℕ → ℕ → ℕ → Option ℕ × World A → Option ℕ × World A
  unfolding copy
  after_malloc p s sz (none, w) = (none, h.free p w)
  after_malloc p s sz (some q, w) =
      (some q, h.free p (record w { memory = copy q p (if ltb s sz then s else sz) w.memory }))

  -- `realloc` of a block to a size that is not 0.
  unfoldable pub move_block : ℕ → ℕ → World A → Option ℕ × World A
  unfolding after_malloc
  move_block p sz w = after_malloc p (h.usable_size w p) sz (h.malloc sz w)

  -- `realloc`; a pointer of 0 is NULL.
  unfoldable pub realloc : ℕ → ℕ → World A → Option ℕ × World A
  unfolding move_block
  realloc p sz w =
      if p == 0 then h.malloc sz w else if sz == 0 then (none, h.free p w) else move_block p sz w

  -- `operator new` and `operator new[]`.
  unfoldable pub operator_new : ℕ → World A → Made A
  unfolding or_throw
  operator_new sz w = or_throw (h.malloc sz w)

  unfoldable pub operator_new_array : ℕ → World A → Made A
  unfolding or_throw
  operator_new_array size w = or_throw (h.malloc size w)

  -- Both with `nothrow`.
  unfoldable pub operator_new_nothrow : ℕ → World A → Option ℕ × World A
  operator_new_nothrow sz w = h.malloc sz w

  unfoldable pub operator_new_array_nothrow : ℕ → World A → Option ℕ × World A
  operator_new_array_nothrow sz w = h.malloc sz w

  -- `operator delete` and `operator delete[]`.
  unfoldable pub operator_delete : ℕ → World A → World A
  operator_delete p w = h.free p w

  unfoldable pub operator_delete_array : ℕ → World A → World A
  operator_delete_array p w = h.free p w
