-- ===== src/Locking.antt =====
-- Any number of processes in `tryToCommit` and `isConsistent` of src/include/xmemory.h, whose calls on the
-- two regions interleave. The locks are those of src/include/xpersist.h, which stand on
-- src/include/xplock.h.
pub mod Owners
pub mod Rest
pub mod Invariant
pub mod Keeping
pub mod Atomic
use grace.Prelude.{ℕ, ◌≡◌, ◌⊎◌, Bool, true, false, List, [], ◌∷◌, ◌++◌, ◌==◌, if◌then◌else◌}
use grace.Result.{Result, ok, ◌>>=◌}
use grace.Persist.Region.{Store, Region}
use grace.Persist.Commit
use grace.Memory.{Shared, Memory, consistent, is_consistent, try_to_commit}

-- Which of the two functions is called, and the process's memory at the call.
pub data Call : Type 0 where
  commit_call check_call : Call

pub record Task : Type 0 where
  pub call : Call
  pub memory : Memory

-- Where a process stands: outside of both functions; with the heap's lock, and the heap's region since;
-- with both locks; with the heap committed; with its answer and both locks; and with that of the
-- globals only.
pub data Control : Type 0 where
  outside : Control
  has_heap : Task → Region → Control
  has_both : Task → Memory → Control
  heap_committed : Task → Memory → Control
  answered : Task → Bool → Memory → Control
  heap_freed : Task → Bool → Memory → Control

-- The shared files, the processes, and the calls that have returned with their answers, the latest last.
pub record Commits : Type 0 where
  pub shared : Shared
  pub control : ℕ → Control
  pub history : List (Task × Bool)

abbrev pub put : {C : Type 0} → ℕ → C → (ℕ → C) → ℕ → C
put i c control j = if j == i then c else control j

abbrev pub set_heap : Store → Shared → Shared
set_heap h s = record s { heap = h }

abbrev pub set_globals : Store → Shared → Shared
set_globals g s = record s { globals = g }

-- A step of process `i`: one call on one region, or the check of both.
pub data Step (i : ℕ) (σ : Commits) : Commits → Type 0 where
  locks_heap :
      (w : Task) (h : Store) (r : Region)
      → σ.control i ≡ outside
      → Commit.lock σ.shared.heap w.memory.heap ≡ ok (h, r)
      → Step i σ
          (record σ { shared = set_heap h σ.shared; control = put i (has_heap w r) σ.control })
  locks_globals :
      (w : Task) (r : Region) (g : Store) (q : Region)
      → σ.control i ≡ has_heap w r
      → Commit.lock σ.shared.globals w.memory.globals ≡ ok (g, q)
      → Step i σ (record σ {
        shared = set_globals g σ.shared;
        control = put i (has_both w (record w.memory { heap = r; globals = q })) σ.control;
      })
  -- `isConsistent`, or a refusal of `tryToCommit`.
  checks :
      (w : Task) (m : Memory) (b : Bool)
      → σ.control i ≡ has_both w m
      → consistent σ.shared m ≡ ok b
      → (w.call ≡ check_call) ⊎ (b ≡ false)
      → Step i σ (record σ { control = put i (answered w b m) σ.control })
  commits_heap :
      (w : Task) (m : Memory) (h : Store) (r : Region)
      → σ.control i ≡ has_both w m
      → w.call ≡ commit_call
      → consistent σ.shared m ≡ ok true
      → Commit.commit σ.shared.heap m.heap ≡ ok (h, r)
      → Step i σ (record σ {
        shared = set_heap h σ.shared;
        control = put i (heap_committed w (record m { heap = r })) σ.control;
      })
  commits_globals :
      (w : Task) (m : Memory) (g : Store) (r : Region)
      → σ.control i ≡ heap_committed w m
      → Commit.commit σ.shared.globals m.globals ≡ ok (g, r)
      → Step i σ (record σ {
        shared = set_globals g σ.shared;
        control = put i (answered w true (record m { globals = r })) σ.control;
      })
  frees_heap :
      (w : Task) (b : Bool) (m : Memory)
      → σ.control i ≡ answered w b m
      → Step i σ (record σ {
        shared = set_heap (Commit.unlock σ.shared.heap m.heap).0 σ.shared;
        control =
            put i
              (heap_freed w b (record m { heap = (Commit.unlock σ.shared.heap m.heap).1 }))
              σ.control;
      })
  frees_globals :
      (w : Task) (b : Bool) (m : Memory)
      → σ.control i ≡ heap_freed w b m
      → Step i σ (record {
        shared = set_globals (Commit.unlock σ.shared.globals m.globals).0 σ.shared;
        control = put i outside σ.control;
        history = σ.history ++ ((w, b) ∷ []);
      })

pub data Reach (σ : Commits) : Commits → Type 0 where
  here : Reach σ σ
  next : {τ υ : Commits} (i : ℕ) → Reach σ τ → Step i τ υ → Reach σ υ

-- Every process outside, and nothing done.
abbrev pub start : Shared → Commits
start s = record { shared = s; control = λ i. outside; history = [] }

-- The same call as one step, without the process's own memory.
unfoldable pub attempt : Task → Shared → Result (Bool × Shared)
unfolding try_to_commit is_consistent
attempt w s = elim w.call [
  | commit_call ↦ do (b, s', m) ← try_to_commit s w.memory; ok (b, s')
  | check_call ↦ do (b, s', m) ← is_consistent s w.memory; ok (b, s')
]

-- The calls one after the other, each as one step, with these answers.
pub data Serial (s : Shared) : List (Task × Bool) → Shared → Type 0 where
  none_done : Serial s [] s
  one_more :
      {l : List (Task × Bool)} {s' s'' : Shared} (w : Task) (b : Bool)
      → Serial s l s'
      → attempt w s' ≡ ok (b, s'')
      → Serial s (l ++ ((w, b) ∷ [])) s''
