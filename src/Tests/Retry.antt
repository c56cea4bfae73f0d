-- ===== src/Tests/Retry.antt =====
-- A transaction that writes a byte to a file, is rolled back, and tries again.
use grace.Prelude.{◌≡◌, refl, [], ◌∷◌, List, some}
use grace.Result.{ok, undefined}
use grace.Memory.Commits.{committed as committed_memory, released, try_to_commit-stale}
use grace.Io.{File, new_file, write, get_file}
use grace.Run.{Run, rolls_back, wait_pred, abort, atomic_end}
use grace.Run.Total.{refused_end}
use grace.Run.Retry.{retried_write}
use grace.Tests.Transaction.{at_end, shared₁, shared₂, free₂, check_fails, commit_step}
use grace.Tests.Run.{run_of, touched}

abbrev one_file : List File
one_file = new_file 4 ∷ []

abbrev writing : Run
writing = record (run_of at_end) { files = (write 4 (7 ∷ []) one_file).0 }

abbrev rolled : Run
rolled = abort (record (wait_pred writing) { memory = released at_end })

rolls : atomic_end shared₂ writing ≡ ok (rolls_back, shared₂, rolled)
rolls =
    refused_end shared₂ shared₂ writing (released at_end) touched
      (try_to_commit-stale shared₂ at_end free₂ check_fails)

open_file : get_file 4 one_file ≡ some (new_file 4)
unfolding get_file new_file
open_file = refl

retried_write_example :
    atomic_end shared₁
      (record rolled { memory = at_end; files = (write 4 (7 ∷ []) rolled.files).0 })
    ≡ undefined
retried_write_example =
    retried_write 4 (7 ∷ []) (7 ∷ []) one_file shared₂ shared₂ shared₁ commit_step.0 writing rolled
      at_end (committed_memory at_end) open_file refl touched rolls touched commit_step.1.result
