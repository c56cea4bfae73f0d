-- ===== src/Sequence.antt =====
-- A program with threads under Grace (src/source/xthread.cpp, src/include/xrun.h): each thread is a process
-- that runs transactions, spawns others and exits. Loads and stores within a transaction interleave with
-- those of all others (`Runs`); what is a step here is the end of a transaction, a `fork`, or an exit.
pub mod Line
pub mod Parts
pub mod Order
pub mod Progress
pub mod Joins
use grace.Prelude.{
  ℕ, ◌≡◌, ◌≢◌, ◌⊎◌, Bool, true, false, Option, none, some, List, [], ◌∷◌, ◌++◌, ◌==◌, if◌then◌else◌,
}
use grace.Result.{ok}
use grace.Memory.{Shared, Memory}
use grace.Memory
use grace.Memory.Commits.{Free}
use grace.Transaction.{Program, finish, Started, Runs}
use grace.Latch.{latch_index}
use grace.Run.{Run, goes_on, rolls_back, atomic_begin, atomic_end, punctuate}
use grace.Thread.{
  ThreadStatus, Thread, ThreadFunction, forked_off, not_forked, fork_failed, spawn, join_forked,
}

-- What a thread does: transactions, each ended by `punctuate`; a `spawn` or a `sync`, with the
-- transaction that it ends; and the end of the thread, with its last transaction. `none` is a stretch of code that touches no
-- shared byte.
pub data Code : Type 0 where
  punctuates : Program → Code → Code
  spawns : Option Program → Code → Code → Code
  joins : Option Program → Code → Code
  ends : Option Program → Code

abbrev pub work : Option Program → List Program
work none = []
work (some p) = p ∷ []

-- The order without threads: a spawned thread runs to its end before the spawning one goes on.
unfoldable pub sequence : Code → List Program
sequence (punctuates p k) = p ∷ sequence k
sequence (spawns w c k) = work w ++ (sequence c ++ sequence k)
sequence (joins w k) = work w ++ sequence k
sequence (ends w) = work w

abbrev pub Member : ℕ → List ℕ → Type 0
Member i [] = ⊥
Member i (j ∷ js) = (i ≡ j) ⊎ Member i js

-- A thread that has not exited. `children` are the processes whose status objects it can reach: those
-- that it forked, and those that its parent had forked before it.
pub record Live : Type 0 where
  pub thread : Thread
  pub code : Code
  pub children : List ℕ

abbrev pub tid : Live → ℕ
tid l = l.thread.run.tid

abbrev pub pred : Live → ℕ
pred l = l.thread.run.pred

-- The shared files; the live threads, of which one that is spawned comes before the one that spawned it;
-- which exit latches have been opened, by their index; and the transactions committed, the latest last.
pub record Threads : Type 0 where
  pub shared : Shared
  pub live : List Live
  pub exited : ℕ → Bool
  pub history : List Program

-- The latch of the process `i` is open: `waitExited` returns.
abbrev pub gone : Threads → ℕ → Bool
gone σ i = σ.exited (latch_index i)

-- `waitPred` returns.
abbrev pub Passes : Threads → Thread → Type 0
Passes σ t = (t.run.pred ≡ 0) ⊎ (gone σ t.run.pred ≡ true)

-- At the end of the transaction `p`, which began with the memory at `from` and touched something, with
-- both locks free and the predecessor gone.
pub record Ready (σ : Threads) (p : Program) (t : Thread) : Type 0 where
  pub from : Memory
  pub ran : Runs p from σ.shared t.run.memory finish
  pub free : Free σ.shared
  pub touched : Memory.is_nop t.run.memory ≡ false
  pub passes : Passes σ t

-- The id has a latch of its own: no live thread has that latch, and it has not been opened.
abbrev pub Absent : ℕ → List Live → Type 0
Absent i [] = Unit {0}
Absent i (l ∷ ls) = (latch_index (tid l) ≢ latch_index i) × Absent i ls

pub record Unused (σ : Threads) (i : ℕ) : Type 0 where
  pub nonzero : i ≢ 0
  pub not_exited : gone σ i ≡ false
  pub absent : Absent i σ.live

abbrev pub live : Thread → Code → List ℕ → Live
live t k cs = record { thread = t; code = k; children = cs }

-- The first transaction that the code ends, and the code after that.
pub data Commits : Code → Program → Code → Type 0 where
  punctuated : (p : Program) (k : Code) → Commits (punctuates p k) p k
  joining : (p : Program) (k : Code) → Commits (joins (some p) k) p (joins none k)
  ended : (p : Program) → Commits (ends (some p)) p (ends none)

-- After `punctuate` a new transaction has begun; in a `sync` and after the last one of a thread, none.
abbrev pub resume : {c k : Code} {p : Program} → Commits c p k → Run → Run
resume (punctuated p k) r = atomic_begin r
resume (joining p k) r = r
resume (ended p) r = r

-- A step of the thread between `before` and `after`. What a thread does to its own view of the memory, or
-- at the start of a transaction, is `computes`, which may leave any view: `Ready` asks at the end for one
-- that a run of the program leaves; `rolls` is a rollback. A `sync` of a forked thread ends the
-- transaction and then waits for the thread, `joined`; others may take steps in between.
pub data Step (σ : Threads) : Threads → Type 0 where
  computes :
      (before after : List Live) (cs : List ℕ) (t : Thread) (k : Code) (m : Memory)
      → σ.live ≡ before ++ (live t k cs ∷ after)
      → Step σ (record σ {
        live = before ++ (live (record t { run = record t.run { memory = m } }) k cs ∷ after);
      })
  commits :
      (before after : List Live) (cs : List ℕ) (t : Thread) (c k : Code) (p : Program) (s : Shared)
      (r : Run)
      → σ.live ≡ before ++ (live t c cs ∷ after)
      → (e : Commits c p k) → Ready σ p t
      → atomic_end σ.shared t.run ≡ ok (goes_on, s, r)
      → Step σ (record σ {
        shared = s;
        live = before ++ (live (record t { run = resume e r }) k cs ∷ after);
        history = σ.history ++ (p ∷ []);
      })
  rolls :
      (before after : List Live) (cs : List ℕ) (t : Thread) (c : Code) (p : Program) (s : Shared)
      (r : Run)
      → σ.live ≡ before ++ (live t c cs ∷ after)
      → Ready σ p t
      → atomic_end σ.shared t.run ≡ ok (rolls_back, s, r)
      → Step σ
          (record σ { shared = s; live = before ++ (live (record t { run = r }) c cs ∷ after) })
  spawns_quiet :
      (before after : List Live) (cs : List ℕ) (t parent child : Thread) (c k : Code)
      (fn : ThreadFunction) (i : ℕ) (garbage status : ThreadStatus) (s : Shared)
      → σ.live ≡ before ++ (live t (spawns none c k) cs ∷ after)
      → Memory.is_nop t.run.memory ≡ true
      → spawn false fn i garbage σ.shared t ≡ ok (s, forked_off parent status child)
      → Step σ (record σ {
        shared = s;
        live = before ++ (live child c cs ∷ live parent k (i ∷ cs) ∷ after);
      })
  spawns_after :
      (before after : List Live) (cs : List ℕ) (t parent child : Thread) (c k : Code) (p : Program)
      (fn : ThreadFunction) (i : ℕ) (garbage status : ThreadStatus) (s : Shared)
      → σ.live ≡ before ++ (live t (spawns (some p) c k) cs ∷ after)
      → Ready σ p t
      → spawn false fn i garbage σ.shared t ≡ ok (s, forked_off parent status child)
      → Step σ (record σ {
        shared = s;
        live = before ++ (live child c cs ∷ live parent k (i ∷ cs) ∷ after);
        history = σ.history ++ (p ∷ []);
      })
  -- `fork` gives no child: the parent goes on as if it had one, whose id is -1. The latch of that id would
  -- lie outside of the table; what a wait for it does is not said here.
  stays_alone :
      (before after : List Live) (cs : List ℕ) (t parent : Thread) (w : Option Program) (c k : Code)
      (fn : ThreadFunction) (garbage status : ThreadStatus) (s : Shared)
      → σ.live ≡ before ++ (live t (spawns w c k) cs ∷ after)
      → spawn false fn fork_failed garbage σ.shared t ≡ ok (s, not_forked parent status)
      → Step σ (record σ {
        shared = s;
        live = before ++ (live parent k (fork_failed ∷ cs) ∷ after);
        history = σ.history ++ work w;
      })
  joined :
      (before after : List Live) (cs : List ℕ) (t : Thread) (k : Code) (status : ThreadStatus)
      → σ.live ≡ before ++ (live t (joins none k) cs ∷ after)
      → Member status.tid cs
      → gone σ status.tid ≡ true
      → Step σ (record σ { live = before ++ (live (join_forked status t).0 k cs ∷ after) })
  exits :
      (before after : List Live) (cs : List ℕ) (t : Thread)
      → σ.live ≡ before ++ (live t (ends none) cs ∷ after)
      → Passes σ t
      → Step σ (record σ {
        live = before ++ after;
        exited = λ i. if i == latch_index t.run.tid then true else σ.exited i;
      })

pub data Reach (σ : Threads) : Threads → Type 0 where
  here : Reach σ σ
  next : {τ υ : Threads} → Reach σ τ → Step τ υ → Reach σ υ

-- A step that commits or refuses a transaction which began with its regions apart, all pages closed and
-- nothing recorded; or that forks a process whose id has a latch of its own; or any other but a `fork`
-- that gives no child.
abbrev pub Orderly : {σ τ : Threads} → Step σ τ → Type 0
Orderly (commits before after cs t c k p s r e w ready h) = Started ready.from
Orderly (rolls before after cs t c p s r e ready h) = Started ready.from
Orderly {σ} (spawns_quiet before after cs t parent child c k fn i garbage status s e n h) =
    Unused σ i
Orderly {σ} (spawns_after before after cs t parent child c k p fn i garbage status s e ready h) =
    Started ready.from × Unused σ i
Orderly (stays_alone before after cs t parent w c k fn garbage status s e h) = ⊥
Orderly _ = Unit {0}

abbrev pub AllOrderly : {σ τ : Threads} → Reach σ τ → Type 0
AllOrderly here = Unit {0}
AllOrderly (next r s) = AllOrderly r × Orderly s

-- One thread, which has just begun.
abbrev pub start : Shared → Thread → Code → Threads
start s t k = record { shared = s; live = live t k [] ∷ []; exited = λ i. false; history = [] }
