-- ===== src/Tests/Threads.antt =====
-- A `printf` after a commit, and a thread that is created and joined.
use grace.Prelude.{
  Bool, ℕ, ◌≡◌, refl, ◌⊎◌, true, false, Option, none, some, List, [], ◌∷◌, ◌++◌, arith,
}
use grace.Result.{ok}
use grace.Persist.Region
use grace.Memory.{Memory}
use grace.Memory
use grace.Run.{Run, Mark, goes_on, waited_for, began, buffered, marks, atomic_begin, set_pred}
use grace.Run.Order.{atomic_end-nop}
use grace.Thread.{
  ThreadStatus, Thread, forked_off, exit_thread, freed, fork_spawn, fork_parent, join_forked,
  after_join, sync,
}
use grace.Libc.Threads.{printf, print_after, pthread_create, pthread_join}
use grace.Run.Order.{Again}
use grace.Libc.Printing.{Printed, printf_ways}
use grace.Libc.Joins.{join-create}
use grace.Tests.Transaction.{shared₁, at_end, commit_step}
use grace.Tests.Run.{run_of, run_after_commit, touched, the_end}
use grace.Tests.Thread.{thread, five, garbage, parent, child, forks}

abbrev after_print : Run
after_print = atomic_begin (marks run_after_commit (buffered (104 ∷ 105 ∷ []) ∷ []))

prints :
    printf (104 ∷ 105 ∷ []) 2 shared₁ (run_of at_end)
    ≡ ok (goes_on, commit_step.0, after_print, some 2)
unfolding printf print_after
prints = rw the_end refl

abbrev written : Option ℕ
written = some 2

printf_ways_example :
    (done : Bool) × (m : Memory) × (Memory.try_to_commit shared₁ at_end
      ≡ ok (done, commit_step.0, m))
    × (((done ≡ true)
          × (written ≡ some 2)
          × Printed (104 ∷ 105 ∷ []) (run_of at_end) 7 m goes_on after_print)
        ⊎ ((done ≡ false) × (written ≡ none) × Again (run_of at_end) 7 m goes_on after_print))
printf_ways_example =
    printf_ways (104 ∷ 105 ∷ []) 2 shared₁ commit_step.0 (run_of at_end) after_print goes_on 6
      (some 2) refl touched prints

creates :
    pthread_create false five 77 garbage shared₁ thread
    ≡ ok (commit_step.0, forked_off parent.0 parent.1 child, 0)
unfolding pthread_create fork_spawn
creates = rw forks refl

abbrev left_by_child : ThreadStatus
left_by_child = (exit_thread 5 parent.1 child).1

parent_nop : Memory.is_nop parent.0.run.memory ≡ true
unfolding fork_parent set_pred atomic_begin Memory.begin Memory.is_nop Region.begin Region.nop
parent_nop = refl

abbrev idle_parent : Thread
idle_parent = record parent.0 {
  run = record parent.0.run { memory = Memory.update_all parent.0.run.memory };
}

joins :
    pthread_join (some left_by_child) commit_step.0 parent.0
    ≡ ok (commit_step.0, goes_on, (join_forked left_by_child idle_parent).0, some (5, freed), 0)
unfolding pthread_join sync after_join join_forked exit_thread fork_parent
joins = rw (atomic_end-nop commit_step.0 parent.0.run parent_nop) refl

join-create_example :
    ◌≡◌ {A = ℕ} 5 5
    × ((log : List Mark) × ((join_forked left_by_child idle_parent).0.run.log
          ≡ (log ++ (waited_for 77 ∷ [])) ++ (began ∷ [])))
    × ◌≡◌ {A = ℕ} 0 0
    × ◌≡◌ {A = ℕ} 0 0
join-create_example =
    join-create five 77 5 garbage parent.1 shared₁ commit_step.0 thread parent.0 child 0 creates
      (λ e. omega (arith, e)) child commit_step.0 commit_step.0 parent.0
      (join_forked left_by_child idle_parent).0 5 freed 0 joins
