-- ===== src/Thread.antt =====
-- src/include/xthread.h and src/source/xthread.cpp: a thread is a process of its own, or is run in place.
-- What the thread function does is an argument, as a step of the process that runs it; so is the process
-- id that `fork` gives, and the shared state at each commit.
pub mod Chain
pub mod Exit
use grace.Prelude.{
  ℕ, zero, suc, ◌+◌, ◌-◌, Bool, true, false, Option, none, some, List, [], ◌∷◌, ◌++◌, leb, ◌==◌,
  if◌then◌else◌,
}
use grace.Result.{Result, ok, ◌>>=◌}
use grace.Log.{log}
use grace.Memory.{Shared}
use grace.Run.{
  Run, Mark, waited_for, exited, marks, Flow, goes_on, rolls_back, set_pred, wait_pred,
  atomic_begin, atomic_end,
}

-- The allocators that status objects come from: `allocateSharedObject`, and `_tstatHeap`.
pub data Place : Type 0 where
  shared_pages tstat_heap : Place

-- `ThreadStatus`, with the place that it came from. The constructor without arguments sets no field.
pub record ThreadStatus : Type 0 where
  pub tid : ℕ
  pub retval : ℕ
  pub forked : Bool
  pub place : Place

-- A process, and how deep it is in threads.
pub record Thread : Type 0 where
  pub run : Run
  pub nesting_level : ℕ

-- `dontFork`, for a number of processors; `none` if the logarithm does not end.
unfoldable pub dont_fork : ℕ → ℕ → Option Bool
dont_fork cpus level = elim (log 32 cpus) [ none ↦ none | some l ↦ some (leb l level) ]

-- What the thread function does in a process, and its result.
abbrev pub ThreadFunction : Type 0
ThreadFunction = Thread → Result (Thread × ℕ)

-- `spawn` without `fork`: the function runs in the caller's transaction.
unfoldable pub run_in_place : ThreadFunction → Thread → Result (Thread × ThreadStatus)
run_in_place fn t = do
  (t', retval) ← fn (record t { nesting_level = t.nesting_level + 1 })
  ok (
    record t' { nesting_level = t'.nesting_level - 1 },
    record { tid = 0; retval = retval; forked = false; place = Place.tstat_heap },
  )

-- The parent's way out of `forkSpawn`.
unfoldable pub fork_parent : ℕ → ThreadStatus → Thread → Thread × ThreadStatus
fork_parent child status t = (
  record t { run = atomic_begin (set_pred child t.run) },
  record status { forked = true; tid = child },
)

-- The child, up to `run_thread`.
unfoldable pub fork_child : ℕ → Thread → Thread
fork_child pid t = record t {
  run = record t.run { tid = pid };
  nesting_level = t.nesting_level + 1;
}

-- A status object just made, with whatever its memory held.
abbrev pub new_status : ThreadStatus → ThreadStatus
new_status garbage = record garbage { place = Place.shared_pages }

-- What `spawn` comes to in the caller, with the child if there is one.
pub data Spawned : Type 0 where
  in_place : Thread → ThreadStatus → Spawned
  forked_off : Thread → ThreadStatus → Thread → Spawned
  not_forked : Thread → ThreadStatus → Spawned
  rolled : Thread → Spawned

-- What `fork` gives when there is no child: -1, as a 32-bit word.
abbrev pub fork_failed : ℕ
fork_failed = 4294967295

-- `forkSpawn`: the parent takes the same way when there is no child.
unfoldable pub fork_spawn : ℕ → ThreadStatus → Thread → Spawned
unfolding fork_parent fork_child
fork_spawn child garbage t =
    let (t', status) = fork_parent child (new_status garbage) t in
    if child == fork_failed then not_forked t' status else forked_off t' status (fork_child child t)

-- `spawn` with `fork`, once `atomicEnd` has gone on or rolled back.
unfoldable pub after_end : ℕ → ThreadStatus → Flow → Thread → Spawned
unfolding fork_spawn
after_end child garbage goes_on t = fork_spawn child garbage t
after_end child garbage rolls_back t = rolled t

-- `spawn`, when `dontFork` says `in_process`. The result has the shared state after it.
unfoldable pub spawn :
    Bool → ThreadFunction → ℕ → ThreadStatus → Shared → Thread → Result (Shared × Spawned)
unfolding run_in_place after_end
spawn true fn child garbage s t = do (t', status) ← run_in_place fn t; ok (s, in_place t' status)
spawn false fn child garbage s t = do
  (f, s', r) ← atomic_end s t.run
  ok (s', after_end child garbage f (record t { run = r }))

-- The result, if the transaction was not rolled back.
abbrev pub kept_result : Flow → ℕ → Option ℕ
kept_result goes_on result = some result
kept_result rolls_back result = none

-- `run_thread`, one attempt: `none` is a rollback to its start.
unfoldable pub run_thread : ThreadFunction → Shared → Thread → Result (Shared × Thread × Option ℕ)
run_thread fn s t = do
  (t', result) ← fn (record t { run = atomic_begin t.run })
  (f, s', r) ← atomic_end s t'.run
  ok (s', record t' { run = r }, kept_result f result)

-- What the child does after `run_thread`, with its result written.
unfoldable pub exit_thread : ℕ → ThreadStatus → Thread → Thread × ThreadStatus
exit_thread result status t =
    let r = wait_pred t.run in
    (
      record t { run = marks r (exited r.tid ∷ []); nesting_level = t.nesting_level - 1 },
      record status { retval = result },
    )

-- How `sync` disposes of a status object: into `_tstatHeap`, or by `freeSharedObject`.
pub data Disposal : Type 0 where
  freed unmapped : Disposal

-- `sync` of a forked thread after `atomicEnd`; `status` is the object as it stands after the wait.
unfoldable pub join_forked : ThreadStatus → Thread → Thread × ℕ × Disposal
join_forked status t =
    let r = if status.tid == 0 then t.run else marks t.run (waited_for status.tid ∷ []) in
    (record t { run = atomic_begin r }, status.retval, Disposal.freed)

unfoldable pub after_join : ThreadStatus → Flow → Thread → Flow × Thread × Option (ℕ × Disposal)
unfolding join_forked
after_join status goes_on t =
    let (t', retval, disposal) = join_forked status t in (goes_on, t', some (retval, disposal))
after_join status rolls_back t = (rolls_back, t, none)

-- `sync`; the thread argument may be NULL.
unfoldable pub sync :
    Option ThreadStatus → Shared → Thread → Result (Shared × Flow × Thread × Option (ℕ × Disposal))
unfolding after_join
sync none s t = ok (s, goes_on, t, none)
sync (some status) s t = elim status.forked [
  | true ↦ do
    (f, s', r) ← atomic_end s t.run
    let (f', t', answer) = after_join status f (record t { run = r })
    ok (s', f', t', answer)
  | false ↦ ok (s, goes_on, t, some (status.retval, Disposal.unmapped))
]
