-- ===== src/Tests/Context.antt =====
-- A stack of a hundred words, saved from 1000 down to 900 and put back from 850.
use grace.Prelude.{ℕ, ◌+◌, ◌≡◌, refl}
use grace.Result.{ok}
use grace.Context.{Context, pos, commit, get_context, save_stack, save_words, difference}

abbrev blank : Context
blank = record { pbos = 1000; registers = 0; stack_size = pos 0; stack = λ i. 0 }

abbrev first : ℕ → ℕ
first a = a + 7

abbrev later : ℕ → ℕ
later a = 3

abbrev kept : Context
kept = record blank {
  registers = 5;
  stack_size = pos 3;
  stack = save_words 1000 first 3 blank.stack;
}

kept_lem : commit 5 997 first blank ≡ ok kept
unfolding commit get_context save_stack difference
kept_lem = refl
