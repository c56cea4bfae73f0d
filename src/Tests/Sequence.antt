-- ===== src/Tests/Sequence.antt =====
-- A process commits, forks a child, the child exits, and the process joins it.
use grace.Prelude.{
  ◌≡◌, ◌↔◌, refl, inl, inr, true, false, none, some, List, [], ◌∷◌, ◌++◌, ◌==◌, arith,
  if◌then◌else◌,
}
use grace.Result.{ok}
use grace.Memory.{Shared, Memory, try_to_commit}
use grace.Memory
use grace.Io
use grace.Memory.Commits.{committed as committed_memory}
use grace.Transaction.{image}
use grace.System.{run_all}
use grace.Run.{
  set_pred, atomic_begin, Run, goes_on, committed, sent, flushed, wait_pred, after_try,
  atomic_commit, atomic_end, atomic_end_with,
}
use grace.Thread.{
  ThreadStatus, join_forked, Thread, fork_spawn, fork_parent, fork_child, new_status, after_end,
  forked_off, spawn,
}
use grace.Latch.{latch_index}
use grace.Sequence.{
  Code, spawns, ends, sequence, Live, live, Threads, Passes, Ready, Unused, spawns_after, joins,
  joined, exits, Reach, here, next, AllOrderly, gone, start,
}
use grace.Sequence.Order.{pending, Reach-sequence}
use grace.Sequence.Progress.{passes_first}
use grace.Sequence.Joins.{sync_goes_on}
use grace.Tests.Transaction.{
  shared₁, memory₀, started, at_end, copy_next, finished, free₁, commit_step,
}
use grace.Tests.Run.{touched}
use grace.Tests.Thread.{five, garbage}

abbrev run_first : Memory → Run
run_first m = record { memory = m; files = []; pred = 0; tid = 8; initialized = true; log = [] }

abbrev main : Thread
main = record { run = run_first at_end; nesting_level = 0 }

abbrev run_after : Memory → Run
run_after m = record (run_first m) { log = committed ∷ sent [] ∷ flushed ∷ [] }

goes_through :
    (s s' : Shared) (m m' : Memory)
    → Memory.is_nop m ≡ false
    → try_to_commit s m ≡ ok (true, s', m')
    → atomic_end s (run_first m) ≡ ok (goes_on, s', run_after m')
unfolding atomic_end atomic_commit wait_pred after_try atomic_end_with Io.commit Memory.is_nop
goes_through s s' m m' n e = rw (n, e) refl

abbrev main_after : Thread
main_after = record main { run = run_after (committed_memory at_end) }

forks :
    spawn false five 77 garbage shared₁ main ≡ ok (commit_step.0, fork_spawn 77 garbage main_after)
unfolding spawn after_end
forks =
    rw
      (goes_through shared₁ commit_step.0 at_end (committed_memory at_end) touched
        commit_step.1.result)
      refl

abbrev parent : Thread
parent = (fork_parent 77 (new_status garbage) main_after).0

abbrev child : Thread
child = fork_child 77 main_after

forked :
    spawn false five 77 garbage shared₁ main
    ≡ ok (commit_step.0, forked_off parent (fork_parent 77 (new_status garbage) main_after).1 child)
unfolding fork_spawn
forked = forks

abbrev code : Code
code = spawns (some copy_next) (ends none) (joins none (ends none))

abbrev two_threads : Threads
two_threads = record {
  shared = commit_step.0;
  live = live child (ends none) [] ∷ live parent (joins none (ends none)) (77 ∷ []) ∷ [];
  exited = λ i. false;
  history = copy_next ∷ [];
}

abbrev child_gone : Threads
child_gone = record two_threads {
  live = live parent (joins none (ends none)) (77 ∷ []) ∷ [];
  exited = λ i. if i == latch_index child.run.tid then true else false;
}

ready : Ready (start shared₁ main code) copy_next main
ready = record {
  from = memory₀;
  ran = finished;
  free = free₁;
  touched = touched;
  passes = inl refl;
}

unused : Unused (start shared₁ main code) 77
unfolding latch_index
unused = record {
  nonzero = λ e. omega (arith, e);
  not_exited = refl;
  absent = ((λ e. omega (arith, e)), tt);
}

steps : Reach (start shared₁ main code) child_gone
unfolding fork_child
steps =
    next
      (next here (
        spawns_after [] [] [] main parent child (ends none) (joins none (ends none)) copy_next five
          77 garbage (fork_parent 77 (new_status garbage) main_after).1 commit_step.0 refl ready
          forked))
      (exits [] (live parent (joins none (ends none)) (77 ∷ []) ∷ []) [] child refl (inl refl))

orderly : AllOrderly steps
unfolding steps ready
orderly = ((tt, (started, unused)), tt)

Reach-sequence_example :
    ((copy_next ∷ []) ++ pending child_gone.live ≡ sequence code)
    × (image commit_step.0 ≡ run_all (copy_next ∷ []) (image shared₁))
Reach-sequence_example = Reach-sequence shared₁ main code (λ e. omega (arith, e)) steps orderly

passes_first_example : Passes child_gone parent ↔ ◌≡◌ {A = List Live} [] []
passes_first_example =
    passes_first shared₁ main code [] [] (live parent (joins none (ends none)) (77 ∷ []))
      (λ e. omega (arith, e)) refl steps orderly refl

abbrev status : ThreadStatus
status = (fork_parent 77 (new_status garbage) main_after).1

abbrev all_joined : Threads
all_joined = record child_gone {
  live = live (join_forked status parent).0 (ends none) (77 ∷ []) ∷ [];
}

child_seen : Reach (start shared₁ main code) all_joined
unfolding fork_parent fork_child latch_index
child_seen = next steps (joined [] [] (77 ∷ []) parent (ends none) status refl (inl refl) refl)

parent_passes : Passes child_gone parent
unfolding fork_parent set_pred atomic_begin fork_child latch_index
parent_passes = inr refl

sync_goes_on_example : gone child_gone 77 ≡ true
sync_goes_on_example =
    sync_goes_on shared₁ main code [] [] (live parent (joins none (ends none)) (77 ∷ [])) 77
      (λ e. omega (arith, e)) steps orderly refl parent_passes (inl refl)
