-- ===== src/Tests/Io.antt =====
-- Writes to two files, one of which is then closed.
use grace.Prelude.{◌≡◌, refl, List, [], ◌∷◌, ◌++◌}
use grace.Result.{ok}
use grace.Io.{
  File, wrote, closed_fd, new_file, write, close, commit, get_file, update_file, add_section,
  set_closed,
}
use grace.Io.Commit.{
  AllFew, ClosedLast, pending, closings, still_open, commit_lem, commit-ok-AllFew,
}

abbrev two_files : List File
two_files = new_file 4 ∷ new_file 5 ∷ []

abbrev written : List File
written = (close 5 (write 5 (9 ∷ []) (write 4 (7 ∷ 8 ∷ []) two_files).0).0).0

commit_lem_example : commit written ≡ ok (pending written ++ closings written, still_open written)
unfolding new_file write close get_file update_file add_section set_closed
commit_lem_example = commit_lem written (tt, (tt, tt)) (refl, tt)

events_sent :
    pending written ++ closings written ≡ wrote 4 (7 ∷ 8 ∷ []) ∷ wrote 5 (9 ∷ []) ∷ closed_fd 5 ∷ []
unfolding new_file write close get_file update_file add_section set_closed
events_sent = refl

commit-ok-AllFew_example : AllFew written × ClosedLast written
commit-ok-AllFew_example = commit-ok-AllFew written commit_lem_example
