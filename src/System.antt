-- ===== src/System.antt =====
-- The programs of transactions, run alone one after the other (src/include/xrun.h, xmemory.h).
pub mod Serial
use grace.Prelude.{List, [], ◌∷◌}
use grace.Transaction.{Program, Image, run}

-- The programs run alone, one after the other.
unfoldable pub run_all : List Program → Image → Image
run_all [] f = f
run_all (p ∷ ps) f = run_all ps (run p f)
