-- ===== src/Tests/Run.antt =====
-- A transaction that ends behind a predecessor, and output that is forwarded.
use grace.Prelude.{ℕ, Option, none, ◌≡◌, refl, Bool, true, false, [], ◌∷◌, ◌++◌, ◌⊎◌}
use grace.Persist.Mapping.{view, poke}
use grace.Persist.PageSet.{insert, has}
use grace.Persist.Region.{protect, in_range, local_version, set_local_version, set_transient}
use grace.Persist.Region
use grace.Defines.{page_align_down}
use grace.Memory.Instruction.{set_byte}
use grace.Result.{ok}
use grace.Memory.{
  Shared, Memory, try_to_commit, handle_access, page_seen, add_page, protect_page, record_read,
  record_write,
}
use grace.Memory
use grace.Io
use grace.Memory.Commits.{committed as committed_memory}
use grace.Transaction.{image, run, Started}
use grace.Io.{Event}
use grace.Run.{
  Run, atomic_commit, wait_pred, after_try, atomic_end_with, waited_for, committed, sent, flushed,
  rolled_back, began, goes_on, rolls_back, atomic_end,
}
use grace.Persist.Isolation.{AllCurrent}
use grace.Run.{abort, Flow}
use grace.Run.Calls.{Call, quiet, performed, forward}
use grace.Run.Irrevocable.{checked, forward_ways}
use grace.Io.Commit.{pending, closings, still_open}
use grace.Run.Total.{Current, atomic_end_total}
use grace.Run.Order.{Through, Again, atomic_end_ways}
use grace.Tests.Transaction.{shared₁, at_end, commit_step, started, finished, free₁, copy_next}

abbrev pub run_of : Memory → Run
run_of m = record { memory = m; files = []; pred = 7; tid = 8; initialized = true; log = [] }

pub touched : Memory.is_nop at_end ≡ false
unfolding Memory.is_nop handle_access page_seen add_page protect_page record_read record_write
    Region.record_read Region.record_write protect in_range has insert local_version
    set_local_version set_byte set_transient poke view page_align_down Region.nop
touched = refl

abbrev pub run_after : Memory → Run
run_after m = record (run_of m) {
  pred = 0;
  log = waited_for 7 ∷ committed ∷ sent [] ∷ flushed ∷ [];
}

goes_through :
    (s s' : Shared) (m m' : Memory)
    → Memory.is_nop m ≡ false
    → try_to_commit s m ≡ ok (true, s', m')
    → atomic_end s (run_of m) ≡ ok (goes_on, s', run_after m')
unfolding atomic_end atomic_commit wait_pred after_try atomic_end_with Io.commit Memory.is_nop
goes_through s s' m m' n e = rw (n, e) refl

abbrev pub run_after_commit : Run
run_after_commit = run_after (committed_memory at_end)

pub the_end : atomic_end shared₁ (run_of at_end) ≡ ok (goes_on, commit_step.0, run_after_commit)
the_end =
    goes_through shared₁ commit_step.0 at_end (committed_memory at_end) touched commit_step.1.result

atomic_end_ways_example :
    (done : Bool) × (m : Memory) × (try_to_commit shared₁ at_end ≡ ok (done, commit_step.0, m))
    × (((done ≡ true) × Through (run_of at_end) 7 m goes_on run_after_commit)
        ⊎ ((done ≡ false) × Again (run_of at_end) 7 m goes_on run_after_commit))
atomic_end_ways_example =
    atomic_end_ways shared₁ commit_step.0 (run_of at_end) run_after_commit goes_on 6 refl touched
      the_end

abbrev writes : Call (Option ℕ)
writes = quiet (Io.write 4 (1 ∷ []))

forward_ways_example :
    ((AllCurrent shared₁.heap at_end.heap × AllCurrent shared₁.globals at_end.globals)
      × (forward writes shared₁ (run_of at_end)
          ≡ performed writes shared₁ (checked (run_of at_end))))
    ⊎ ((¬ (AllCurrent shared₁.heap at_end.heap × AllCurrent shared₁.globals at_end.globals))
        × (forward writes shared₁ (run_of at_end)
            ≡ ok (rolls_back, shared₁, abort (checked (run_of at_end)), none)))
forward_ways_example = forward_ways writes shared₁ (run_of at_end) started finished free₁

atomic_end_total_example :
    (f : Flow) × (s' : Shared) × (r' : Run) × (atomic_end shared₁ (run_of at_end) ≡ ok (f, s', r'))
    × ((Current shared₁ at_end
          × (f ≡ goes_on)
          × (image s' ≡ run copy_next (image shared₁))
          × (r'.files ≡ still_open [])
          × (r'.log
              ≡ (wait_pred (run_of at_end)).log
                ++ (committed ∷ sent (pending [] ++ closings []) ∷ flushed ∷ [])))
        ⊎ ((¬ Current shared₁ at_end)
            × (f ≡ rolls_back)
            × (s' ≡ shared₁)
            × Started r'.memory
            × (r'.files ≡ [])
            × (r'.log ≡ (wait_pred (run_of at_end)).log ++ (rolled_back ∷ began ∷ []))))
atomic_end_total_example =
    atomic_end_total shared₁ (run_of at_end) started finished free₁ tt tt touched
