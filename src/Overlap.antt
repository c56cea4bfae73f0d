-- ===== src/Overlap.antt =====
-- Processes whose transactions and commits overlap: a step is a load, a store, a lock, a check, one write of a
-- commit, or an unlock (src/include/xmemory.h, xpersist.h).
pub mod Follows
pub mod Holding
pub mod Moving
pub mod Serial
use grace.Prelude.{ℕ, ◌≡◌, Bool, true, false, List, [], ◌∷◌, ◌++◌, some, ◌==◌, if◌then◌else◌}
use grace.Result.{ok}
use grace.Persist.Region.{Store, Region}
use grace.Persist.Commit
use grace.Persist.Writing.{Pages, none, Moves, Write}
use grace.Memory.{Shared, Memory, consistent}
use grace.Memory
use grace.Memory.Instruction.{
  Location, address, Inside, settle, allows_read, allows_write, byte_at, set_byte,
}
use grace.Transaction.{Program, finish, load, store, Started}
use grace.Transaction.Amid.{Stage}
use grace.Locking.{put}

-- Where a process stands: between transactions; in one that began as `p`, with `k` left to do; at its
-- end with the heap's lock, or with both; writing the heap's pages, or those of the globals, with
-- the file as it was before; with its answer and both locks; and with the globals' lock only.
pub data Control : Type 0 where
  idle : Memory → Control
  busy : Program → Memory → Program → Control
  has_heap : Program → Memory → Control
  has_both : Program → Memory → Control
  writing_heap : Program → Memory → Store → Control
  writing_globals : Program → Memory → Store → Control
  answered : Bool → Memory → Control
  heap_freed : Bool → Memory → Control

-- `history` lists the transactions that are committed, the latest last.
pub record Processes : Type 0 where
  pub stage : Stage
  pub control : ℕ → Control
  pub history : List Program

abbrev pub set_heap : Store → Stage → Stage
set_heap h g = record g { shared = record g.shared { heap = h } }

abbrev pub set_globals : Store → Stage → Stage
set_globals s g = record g { shared = record g.shared { globals = s } }

abbrev pub at : Processes → ℕ → Control → Processes
at σ i c = record σ { control = put i c σ.control }

abbrev pub after : Bool → Memory → Memory
after true m = Memory.begin m
after false m = Memory.begin (Memory.abort m)

pub data Step (i : ℕ) (σ : Processes) : Processes → Type 0 where
  begins : (p : Program) (m : Memory) → σ.control i ≡ idle m → Step i σ (at σ i (busy p m p))
  loads :
      (p : Program) (m m' : Memory) (l : Location) (k : ℕ → Program)
      → σ.control i ≡ busy p m (load l k)
      → Inside m l
      → settle 3 allows_read σ.stage.shared (address m l) m ≡ some m'
      → Step i σ (at σ i (busy p m' (k (byte_at σ.stage.shared m' l))))
  stores :
      (p k : Program) (m m' : Memory) (l : Location) (w : ℕ)
      → σ.control i ≡ busy p m (store l w k)
      → Inside m l
      → settle 3 allows_write σ.stage.shared (address m l) m ≡ some m'
      → Step i σ (at σ i (busy p (set_byte σ.stage.shared l w m') k))
  -- A transaction that touched nothing has nothing to commit.
  skips :
      (p : Program) (m : Memory)
      → σ.control i ≡ busy p m finish
      → Memory.is_nop m ≡ true
      → Step i σ (at σ i (idle (Memory.begin (Memory.update_all m))))
  locks_heap :
      (p : Program) (m : Memory) (h : Store) (r : Region)
      → σ.control i ≡ busy p m finish
      → Memory.is_nop m ≡ false
      → Commit.lock σ.stage.shared.heap m.heap ≡ ok (h, r)
      → Step i σ
          (record (at σ i (has_heap p (record m { heap = r }))) { stage = set_heap h σ.stage })
  locks_globals :
      (p : Program) (m : Memory) (s : Store) (r : Region)
      → σ.control i ≡ has_heap p m
      → Commit.lock σ.stage.shared.globals m.globals ≡ ok (s, r)
      → Step i σ (record (at σ i (has_both p (record m { globals = r }))) {
        stage = set_globals s σ.stage;
      })
  refuses :
      (p : Program) (m : Memory)
      → σ.control i ≡ has_both p m
      → consistent σ.stage.shared m ≡ ok false
      → Step i σ (at σ i (answered false m))
  accepts :
      (p : Program) (m : Memory)
      → σ.control i ≡ has_both p m
      → consistent σ.stage.shared m ≡ ok true
      → Step i σ (at σ i (writing_heap p m σ.stage.shared.heap))
  -- One write of `commit`; `Moves` says that the page that is numbered anew gets a later version.
  writes_heap :
      (p : Program) (m : Memory) (from h : Store) (u : Pages)
      → σ.control i ≡ writing_heap p m from
      → Write m.heap σ.stage.shared.heap σ.stage.heap h u
      → Moves σ.stage.shared.heap σ.stage.heap h u
      → Step i σ (record (at σ i (writing_heap p m from)) {
        stage = record (set_heap h σ.stage) { heap = u };
      })
  -- `commit` of the heap returns.
  heap_done :
      (p : Program) (m : Memory) (from : Store) (r : Region)
      → σ.control i ≡ writing_heap p m from
      → ((q : ℕ) → σ.stage.heap q ≡ false)
      → Commit.commit from m.heap ≡ ok (σ.stage.shared.heap, r)
      → Step i σ (at σ i (writing_globals p (record m { heap = r }) σ.stage.shared.globals))
  writes_globals :
      (p : Program) (m : Memory) (from s : Store) (u : Pages)
      → σ.control i ≡ writing_globals p m from
      → Write m.globals σ.stage.shared.globals σ.stage.globals s u
      → Moves σ.stage.shared.globals σ.stage.globals s u
      → Step i σ (record (at σ i (writing_globals p m from)) {
        stage = record (set_globals s σ.stage) { globals = u };
      })
  globals_done :
      (p : Program) (m : Memory) (from : Store) (r : Region)
      → σ.control i ≡ writing_globals p m from
      → ((q : ℕ) → σ.stage.globals q ≡ false)
      → Commit.commit from m.globals ≡ ok (σ.stage.shared.globals, r)
      → Step i σ (record (at σ i (answered true (record m { globals = r }))) {
        history = σ.history ++ (p ∷ []);
      })
  frees_heap :
      (b : Bool) (m : Memory)
      → σ.control i ≡ answered b m
      → Step i σ
          (record (at σ i
            (heap_freed b (record m { heap = (Commit.unlock σ.stage.shared.heap m.heap).1 }))) {
              stage = set_heap (Commit.unlock σ.stage.shared.heap m.heap).0 σ.stage;
            })
  frees_globals :
      (b : Bool) (m : Memory)
      → σ.control i ≡ heap_freed b m
      → Step i σ
          (record (at σ i (
            idle (
              after b
                (record m { globals = (Commit.unlock σ.stage.shared.globals m.globals).1 })))) {
                  stage = set_globals (Commit.unlock σ.stage.shared.globals m.globals).0 σ.stage;
                })

pub data Reach (σ : Processes) : Processes → Type 0 where
  here : Reach σ σ
  next : {τ υ : Processes} (i : ℕ) → Reach σ τ → Step i τ υ → Reach σ υ

-- The transaction that the step begins, if it begins one, finds all pages closed and nothing recorded.
abbrev pub BeginsClosed : {i : ℕ} {σ τ : Processes} → Step i σ τ → Type 0
BeginsClosed (begins p m e) = Started m
BeginsClosed _ = Unit {0}

abbrev pub AllBeginClosed : {σ τ : Processes} → Reach σ τ → Type 0
AllBeginClosed here = Unit {0}
AllBeginClosed (next i r m) = AllBeginClosed r × BeginsClosed m

-- Every process between transactions, no page under way, and nothing done.
abbrev pub start : Shared → (ℕ → Memory) → Processes
start s memories = record {
  stage = record { shared = s; heap = none; globals = none };
  control = λ i. idle (memories i);
  history = [];
}
