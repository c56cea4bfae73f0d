-- ===== src/Wrapper.antt =====
-- src/source/wrapper.cpp: the C library's heap functions over `getCustomHeap ()`, which is an argument. A
-- pointer of 0 is NULL, and sizes are those of a 32-bit build.
pub mod Aligned
pub mod Resized
use Prim.Native.Nat.{bit_and}
use grace.Prelude.{
  ℕ, zero, suc, ◌+◌, ◌-◌, ◌*◌, ◌%◌, Bool, true, false, not, ◌&&◌, ◌||◌, Option, none, some, ltb,
  leb, ◌==◌, if◌then◌else◌,
}
use grace.Defines.{word_mod}
use grace.Libc.{World, Allocator, copy, zeroed}

-- `x & ~(a - 1)`, for a word `x`.
unfoldable pub clear_low : ℕ → ℕ → ℕ
clear_low x a = x - bit_and x (a - 1)

-- Whether `memalign` refuses the alignment.
unfoldable pub refuses : ℕ → Bool
refuses alignment = (alignment == 0) || not (bit_and alignment (alignment - 1) == 0)

-- A word as a pointer.
abbrev pub as_pointer : ℕ → Option ℕ
as_pointer a = if a == 0 then none else some a

abbrev pub address_of : Option ℕ → ℕ
address_of none = 0
address_of (some p) = p

-- `strnlen (s, n)`.
unfoldable pub strnlen : (ℕ → ℕ) → ℕ → ℕ → ℕ
strnlen memory s zero = 0
strnlen memory s (suc n) =
    let rest = strnlen memory (s + 1) n in if memory s == 0 then 0 else suc rest

-- `strncpy (q, s, n)`: what lies behind the end of the string is filled with zeros.
unfoldable pub strncpy : ℕ → ℕ → ℕ → (ℕ → ℕ) → (ℕ → ℕ)
unfolding strnlen
strncpy q s n m = λ a.
    if leb q a && ltb a (q + n)
    then if ltb (a - q) (strnlen m s n) then m (s + (a - q)) else 0
    else m a

-- What `posix_memalign` returns, and the pointer that it stores through `memptr`, if any.
pub record Answer : Type 0 where
  pub code : ℕ
  pub stored : Option ℕ

abbrev pub einval : ℕ
einval = 22

abbrev pub enomem : ℕ
enomem = 12

abbrev pub path_max : ℕ
path_max = 4096

-- `posix_memalign`, after the call of `memalign`.
abbrev pub stored_answer : {A : Type 0} → Option ℕ × World A → Answer × World A
stored_answer (none, w) = (record { code = enomem; stored = none }, w)
stored_answer (some p, w) = (record { code = 0; stored = some p }, w)

-- The end of `strndup`: copy, and end the string.
abbrev pub ended : {A : Type 0} → ℕ → ℕ → Option ℕ × World A → Option ℕ × World A
ended s n (none, w) = (none, w)
ended s n (some q, w) =
    (some q, record w { memory = λ a. if a == q + n then 0 else strncpy q s n w.memory a })

-- `getcwd` in a buffer of `n` bytes that `malloc` gave, or did not give.
abbrev pub given :
    {A : Type 0}
    → (ℕ → ℕ → World A → Option ℕ × World A)
    → ℕ
    → Option ℕ × World A
    → Option ℕ × World A
given real_getcwd n (r, w) = real_getcwd (address_of r) n w

-- `mallopt` always fails.
unfoldable pub mallopt : ℕ → ℕ → ℕ
mallopt parameter value = 0

module _ {A : Type 0} (h : Allocator A) where
  unfoldable pub calloc : ℕ → ℕ → World A → Option ℕ × World A
  unfolding zeroed
  calloc nelem elsize w =
      let product = nelem * elsize % word_mod in
      let n = if product == 0 then 1 else product in zeroed n (h.malloc n w)

  unfoldable pub memalign : ℕ → ℕ → World A → Option ℕ × World A
  memalign alignment size w =
      if refuses alignment
      then (none, w)
      else let (buf, w') = h.malloc ((2 * alignment + size) % word_mod) w in
        (as_pointer (clear_low ((address_of buf + alignment - 1) % word_mod) alignment), w')

  unfoldable pub malloc_usable_size : World A → ℕ → ℕ
  malloc_usable_size w ptr = if ptr == 0 then 0 else h.usable_size w ptr

  unfoldable pub free : ℕ → World A → World A
  free ptr w = h.free ptr w

  unfoldable pub cfree : ℕ → World A → World A
  cfree ptr w = h.free ptr w

  -- `realloc` of a block of usable size `obj_size`, after the call of `malloc`.
  unfoldable pub moved : ℕ → ℕ → ℕ → Option ℕ × World A → Option ℕ × World A
  unfolding copy
  moved ptr obj_size sz (none, w) = (none, h.free ptr w)
  moved ptr obj_size sz (some buf, w) =
      let min_size = if ltb obj_size sz then obj_size else sz in
      (some buf, h.free ptr (record w { memory = copy buf ptr min_size w.memory }))

  unfoldable pub realloc : ℕ → ℕ → World A → Option ℕ × World A
  unfolding moved malloc_usable_size
  realloc ptr sz w =
      if ptr == 0
      then h.malloc sz w
      else if sz == 0
      then (none, h.free ptr w)
      else moved ptr (malloc_usable_size w ptr) sz (h.malloc sz w)

  unfoldable pub strndup : ℕ → ℕ → World A → Option ℕ × World A
  unfolding strnlen strncpy
  strndup s sz w =
      let capped_length = strnlen w.memory s sz in
      if s == 0
      then (none, w)
      else ended s capped_length (h.malloc ((capped_length + 1) % word_mod) w)

  unfoldable pub valloc : ℕ → World A → Option ℕ × World A
  valloc sz w = memalign 8192 sz w

  unfoldable pub pvalloc : ℕ → World A → Option ℕ × World A
  pvalloc sz w = valloc (clear_low ((sz + 8191) % word_mod) 8192) w

  unfoldable pub posix_memalign : ℕ → ℕ → World A → Answer × World A
  posix_memalign alignment size w =
      if refuses alignment
      then (record { code = einval; stored = none }, w)
      else stored_answer (memalign alignment size w)

  -- `getcwd`; `real_getcwd` is the C library's.
  unfoldable pub getcwd :
      (ℕ → ℕ → World A → Option ℕ × World A) → ℕ → ℕ → World A → Option ℕ × World A
  getcwd real_getcwd buf size w =
      if buf == 0
      then given real_getcwd (if size == 0 then path_max else size)
          (h.malloc (if size == 0 then path_max else size) w)
      else real_getcwd buf size w
