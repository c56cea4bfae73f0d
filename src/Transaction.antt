-- ===== src/Transaction.antt =====
-- A transaction between `atomicBegin` and `atomicEnd` of src/include/xrun.h: the program's loads and
-- stores of shared bytes, interleaved with the commits of other processes.
pub mod Follows
pub mod Steps
pub mod Serial
pub mod Restart
pub mod Amid
use grace.Prelude.{ℕ, ◌/◌, ◌%◌, ◌≡◌, Bool, true, false, List, [], some, ◌==◌, if◌then◌else◌}
use grace.Persist.Mapping.{view}
use grace.Persist.Region.{Region, Access}
use grace.Persist.Interference.{Evolves}
use grace.Defines.{page_size}
use grace.Memory.{Shared, Memory}
use grace.Memory.Layout.{Layout}
use grace.Memory.Instruction.{
  Location, heap_at, globals_at, address, Inside, allows_read, allows_write, settle, byte_at,
  set_byte,
}

-- What a thread does to shared memory: a tree of loads, whose results it may use, and stores.
pub data Program : Type 0 where
  finish : Program
  load : Location → (ℕ → Program) → Program
  store : Location → ℕ → Program → Program

-- The bytes of both regions.
pub record Image : Type 0 where
  pub heap : ℕ → ℕ
  pub globals : ℕ → ℕ

abbrev pub fetch : Image → Location → ℕ
fetch f (heap_at o) = f.heap o
fetch f (globals_at o) = f.globals o

abbrev pub put : Image → Location → ℕ → Image
put f (heap_at o) v = record f { heap = λ i. if i == o then v % 256 else f.heap i }
put f (globals_at o) v = record f { globals = λ i. if i == o then v % 256 else f.globals i }

-- The program run alone, with nothing between its steps.
unfoldable pub run : Program → Image → Image
run finish f = f
run (load l k) f = run (k (fetch f l)) f
run (store l v k) f = run k (put f l v)

abbrev pub image : Shared → Image
image s = record { heap = s.heap.memory; globals = s.globals.memory }

-- What the process sees over the bytes `f`.
abbrev pub overlay : Memory → Image → Image
overlay m f = record {
  heap = view page_size f.heap m.heap.frames;
  globals = view page_size f.globals m.globals.frames;
}

-- A region in which every page is closed and nothing is recorded.
pub record Fresh (r : Region) : Type 0 where
  pub private : r.is_private ≡ true
  pub closed : (p : ℕ) → r.access p ≡ Access.closed
  pub clean : (p : ℕ) → r.frames.copied p ≡ false
  pub no_reads : r.read ≡ []
  pub no_writes : r.dirtied ≡ []

-- Where the first transaction of a process starts, and any that follows a rollback.
pub record Started (m : Memory) : Type 0 where
  pub layout : Layout m
  pub heap : Fresh m.heap
  pub globals : Fresh m.globals
  pub no_pages : m.pages ≡ []

-- Other processes commit.
pub record Interferes (s s' : Shared) : Type 0 where
  pub heap : Evolves s.heap s'.heap
  pub globals : Evolves s.globals s'.globals

-- `Runs p m₀ s m k`: a transaction that began as `p`, with the process's memory at `m₀`, has come to
-- `k`, under any interleaving.
pub data Runs (p : Program) (m₀ : Memory) : Shared → Memory → Program → Type 0 where
  starts : (s : Shared) → Runs p m₀ s m₀ p
  loads :
      {s : Shared} {m : Memory} {l : Location} {k : ℕ → Program} (m' : Memory)
      → Runs p m₀ s m (load l k)
      → Inside m l
      → settle 3 allows_read s (address m l) m ≡ some m'
      → Runs p m₀ s m' (k (byte_at s m' l))
  stores :
      {s : Shared} {m : Memory} {l : Location} {v : ℕ} {k : Program} (m' : Memory)
      → Runs p m₀ s m (store l v k)
      → Inside m l
      → settle 3 allows_write s (address m l) m ≡ some m'
      → Runs p m₀ s (set_byte s l v m') k
  others :
      {s : Shared} {m : Memory} {k : Program} (s' : Shared)
      → Runs p m₀ s m k
      → Interferes s s'
      → Runs p m₀ s' m k
