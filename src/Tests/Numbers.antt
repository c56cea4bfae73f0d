-- ===== src/Tests/Numbers.antt =====
-- The logarithm of some numbers, and two pages that differ in two bytes.
use grace.Prelude.{ℕ, ◌≡◌, refl, some, ◌==◌, if◌then◌else◌}
use grace.Log.{log, log_loop}
use grace.Diffs.{write_diffs, naive_write_diffs}
use grace.Diffs.Pages.{write_diffs-merged}

log_4096 : log 32 4096 ≡ some 12
unfolding log log_loop
log_4096 = refl

abbrev local : ℕ → ℕ
local i = if i == 4 then 90 else if i == 4095 then 81 else 32

abbrev twin : ℕ → ℕ
twin i = 32

abbrev dest : ℕ → ℕ
dest i = 95

write_diffs-merged_example :
    (write_diffs local twin dest 4 ≡ 90)
    × (naive_write_diffs local twin dest 4 ≡ write_diffs local twin dest 4)
write_diffs-merged_example = write_diffs-merged local twin dest 4
