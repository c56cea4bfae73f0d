-- ===== src/Log.antt =====
-- src/include/log.h: how often 1 must be doubled to reach a number. A loop that does not end within the
-- fuel is `none`.
pub mod Least
use grace.Prelude.{ℕ, zero, suc, ◌+◌, ◌*◌, ◌%◌, ◌^◌, Bool, true, false, Option, none, some, ltb}

-- The values of an `unsigned int`.
abbrev pub unsigned_mod : ℕ
unsigned_mod = 2 ^ 32

-- The loop, from its test on.
unfoldable pub log_loop : ℕ → ℕ → ℕ → ℕ → Option ℕ
log_loop zero v value log = none
log_loop (suc fuel) v value log = elim (ltb value v) [
  | true ↦ log_loop fuel v (value * 2 % unsigned_mod) ((log + 1) % unsigned_mod)
  | false ↦ some log
]

unfoldable pub log : ℕ → ℕ → Option ℕ
log fuel v = log_loop fuel v 1 0
