-- ===== src/Tests/Thread.antt =====
-- A thread forked off after a commit, one run in place, and the end of a forked one.
use grace.Prelude.{◌≡◌, refl, ◌⊎◌, true, false, some, List, [], ◌∷◌, ◌++◌}
use grace.Result.{ok}
use grace.Memory
use grace.Io.{Event}
use grace.Run.{waited_for, committed, sent, flushed, exited, goes_on}
use grace.Thread.{
  Place, ThreadStatus, Thread, ThreadFunction, run_in_place, fork_parent, fork_child, new_status,
  in_place, fork_spawn, after_end, spawn, run_thread, exit_thread, unmapped, sync,
}
use grace.Thread.Chain.{Suits, spawn_chain, sync-unsuited}
use grace.Thread.Exit.{exit_thread-waits}
use grace.Tests.Transaction.{shared₁, at_end, commit_step}
use grace.Tests.Run.{run_of, run_after_commit, the_end}

abbrev pub thread : Thread
thread = record { run = run_of at_end; nesting_level = 0 }

abbrev pub five : ThreadFunction
five t = ok (thread, 5)

abbrev pub garbage : ThreadStatus
garbage = record { tid = 99; retval = 98; forked = false; place = Place.shared_pages }

abbrev pub after_commit : Thread
after_commit = record { run = run_after_commit; nesting_level = 0 }

pub forks :
    spawn false five 77 garbage shared₁ thread
    ≡ ok (commit_step.0, fork_spawn 77 garbage after_commit)
unfolding spawn after_end
forks = rw the_end refl

abbrev pub parent : Thread × ThreadStatus
parent = fork_parent 77 (new_status garbage) after_commit

abbrev pub child : Thread
child = fork_child 77 after_commit

spawn_chain_example :
    (parent.0.run.pred ≡ 77)
    × (child.run.tid ≡ 77)
    × (parent.1.tid ≡ 77)
    × (parent.1.forked ≡ true)
    × (((Memory.is_nop at_end ≡ true) × (child.run.pred ≡ 7))
        ⊎ ((Memory.is_nop at_end ≡ false) × (child.run.pred ≡ 0)))
unfolding fork_spawn
spawn_chain_example =
    spawn_chain five 77 garbage parent.1 shared₁ commit_step.0 thread parent.0 child forks

abbrev status : ThreadStatus
status = record { tid = 0; retval = 5; forked = false; place = Place.tstat_heap }

stays :
    spawn true five 77 garbage shared₁ thread
    ≡ ok (shared₁, in_place (record thread { nesting_level = 0 }) status)
unfolding spawn run_in_place
stays = refl

sync-unsuited_example : ¬ Suits Place.tstat_heap unmapped
unfolding sync
sync-unsuited_example =
    sync-unsuited true five 77 garbage status shared₁ shared₁ shared₁ shared₁ thread thread thread
      (in_place (record thread { nesting_level = 0 }) status) 5 5 goes_on unmapped stays refl refl

runs : run_thread five shared₁ thread ≡ ok (commit_step.0, after_commit, some 5)
unfolding run_thread
runs = rw the_end refl

exit_thread-waits_example :
    ((Memory.is_nop at_end ≡ true)
      × ((exit_thread 5 status after_commit).0.run.log
          ≡ ([] ++ (waited_for 7 ∷ [])) ++ (exited 8 ∷ [])))
    ⊎ ((Memory.is_nop at_end ≡ false)
        × (events : List Event) × ((exit_thread 5 status after_commit).0.run.log
            ≡ (([] ++ (waited_for 7 ∷ [])) ++ (committed ∷ sent events ∷ flushed ∷ []))
              ++ (exited 8 ∷ [])))
exit_thread-waits_example =
    exit_thread-waits five shared₁ commit_step.0 thread thread after_commit 5 5 6 status refl refl
      runs
