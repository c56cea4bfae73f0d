-- ===== src/Tests/Locking.antt =====
-- Process 0 commits a page of the heap; process 1 takes the heap's lock for a check between the two unlocks of process 0.
use grace.Prelude.{◌||◌, inl, ℕ, ◌≡◌, refl, true, false, ◌&&◌, [], ◌∷◌, arith}
use grace.Result.{Result, ok, aborted, waiting, undefined}
use grace.Persist.Region.{Store, Region}
use grace.Persist.Commit
use grace.Memory.{Memory, consistent}
use grace.Locking.{
  commit_call, check_call, Task, Control, outside, has_heap, has_both, heap_committed, answered,
  heap_freed, Commits, locks_heap, locks_globals, commits_heap, commits_globals, frees_heap,
  frees_globals, put, Reach, here, next, start, Serial,
}
use grace.Locking.Owners.{holds_heap, holds_globals}
use grace.Locking.Rest.{contents}
use grace.Locking.Atomic.{Waits, Reach-Serial, Reach-exclusive, Reach-unblocked}
use grace.Tests.Transaction.{shared₁, memory₀, free₁}

abbrev value : {A : Type 0} → Result A → A → A
value (ok a) other = a
value aborted other = other
value waiting other = other
value undefined other = other

abbrev writer : Memory
writer = record memory₀ { heap = record memory₀.heap { read = 0 ∷ 1 ∷ []; dirtied = 1 ∷ [] } }

abbrev committing : Task
committing = record { call = commit_call; memory = writer }

abbrev checking : Task
checking = record { call = check_call; memory = memory₀ }

abbrev locked : Store → Region → Store × Region
locked s r = value (Commit.lock s r) (s, r)

abbrev committed : Store → Region → Store × Region
committed s r = value (Commit.commit s r) (s, r)

abbrev heap₁ : Store × Region
heap₁ = locked shared₁.heap writer.heap

abbrev globals₁ : Store × Region
globals₁ = locked shared₁.globals writer.globals

abbrev heap₂ : Store × Region
heap₂ = committed heap₁.0 heap₁.1

abbrev globals₂ : Store × Region
globals₂ = committed globals₁.0 globals₁.1

abbrev heap₃ : Store × Region
heap₃ = locked (Commit.unlock heap₂.0 heap₂.1).0 memory₀.heap

abbrev has_locks : Memory
has_locks = record writer { heap = heap₁.1; globals = globals₁.1 }

abbrev done : Memory
done = record has_locks { heap = heap₂.1; globals = globals₂.1 }

abbrev at_check : Memory
at_check = record done { heap = (Commit.unlock heap₂.0 heap₂.1).1 }

both_locked : Reach (start shared₁) (record {
  shared = record { heap = heap₁.0; globals = globals₁.0 };
  control =
      put 0 (has_both committing has_locks) (put 0 (has_heap committing heap₁.1) (λ i. outside));
  history = [];
})
unfolding Commit.lock
both_locked =
    next 0 (next 0 here (locks_heap committing heap₁.0 heap₁.1 refl refl))
      (locks_globals committing heap₁.1 globals₁.0 globals₁.1 refl refl)

abbrev control₁ : ℕ → Control
control₁ = put 0 (answered committing true done) (
    put 0 (heap_committed committing (record has_locks { heap = heap₂.1 }))
      (put 0 (has_both committing has_locks) (put 0 (has_heap committing heap₁.1) (λ i. outside))))

both_committed : Reach (start shared₁) (record {
  shared = record { heap = heap₂.0; globals = globals₂.0 };
  control = control₁;
  history = [];
})
unfolding Commit.lock Commit.commit consistent
both_committed =
    next 0
      (next 0 both_locked (commits_heap committing has_locks heap₂.0 heap₂.1 refl refl refl refl))
      (commits_globals committing (record has_locks { heap = heap₂.1 }) globals₂.0 globals₂.1 refl
        refl)

-- Process 0 has returned, and process 1 waits for nothing.
abbrev overlapping : Commits
overlapping = record {
  shared = record { heap = heap₃.0; globals = (Commit.unlock globals₂.0 globals₂.1).0 };
  control =
      put 0 outside
        (put 1 (has_heap checking heap₃.1) (put 0 (heap_freed committing true at_check) control₁));
  history = (committing, true) ∷ [];
}

all_steps : Reach (start shared₁) overlapping
unfolding Commit.lock Commit.commit Commit.unlock
all_steps =
    next 0
      (next 1 (next 0 both_committed (frees_heap committing true done refl))
        (locks_heap checking heap₃.0 heap₃.1 refl refl))
      (frees_globals committing true at_check refl)

globals_free : overlapping.shared.globals.held ≡ false
unfolding Commit.unlock
globals_free = refl

Reach-Serial_example : Serial shared₁ ((committing, true) ∷ []) (contents overlapping.shared)
Reach-Serial_example = Reach-Serial shared₁ overlapping free₁ all_steps globals_free

Reach-exclusive_example :
    ((holds_heap (overlapping.control 0) && holds_heap (overlapping.control 1)) ≡ false)
    × ((holds_globals (overlapping.control 0) && holds_globals (overlapping.control 1)) ≡ false)
Reach-exclusive_example =
    Reach-exclusive shared₁ overlapping 0 1 free₁ all_steps (λ e. omega (arith, e))

heap_held : overlapping.shared.heap.held ≡ true
unfolding Commit.unlock Commit.lock
heap_held = refl

Reach-unblocked_example :
    (j : ℕ) × ((holds_heap (overlapping.control j) || holds_globals (overlapping.control j)) ≡ true)
    × (¬ Waits overlapping (overlapping.control j))
Reach-unblocked_example = Reach-unblocked shared₁ overlapping free₁ all_steps (inl heap_held)
