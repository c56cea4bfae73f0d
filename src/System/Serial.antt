-- ===== src/System/Serial.antt =====
-- Programs run one after the other, and the process's memory after a refused commit.
use grace.Prelude.{◌≡◌, refl, sym, subst, false, List, [], ◌∷◌, ◌++◌}
use grace.Result.{ok}
use grace.Memory.{Shared, Memory, try_to_commit}
use grace.Memory.Commits.{Free, released}
use grace.Memory.Layout.{Layout}
use grace.Transaction.{Program, finish, Image, run, Started, Runs}
use grace.Transaction.Steps.{Runs-Follows}
use grace.Transaction.Serial.{refused_of}
use grace.System.{run_all}

pub run_all-append :
    (ps : List Program) (p : Program) (f : Image)
    → run_all (ps ++ (p ∷ [])) f ≡ run p (run_all ps f)
unfolding run_all
run_all-append [] p f = refl
run_all-append (q ∷ ps) p f = run_all-append ps p (run q f)

released-Layout : (m : Memory) → Layout m → Layout (released m)
released-Layout m y = record {
  heap_aligned = y.heap_aligned;
  globals_aligned = y.globals_aligned;
  heap_pages = y.heap_pages;
  globals_pages = y.globals_pages;
  apart = y.apart;
}

pub refused-Layout :
    {p : Program} {m₀ : Memory} {s s' : Shared} {m m' : Memory}
    → Started m₀
    → Runs p m₀ s m finish
    → Free s
    → try_to_commit s m ≡ ok (false, s', m')
    → Layout m'
refused-Layout {s = s} {m = m} b r f e =
    let t = (Runs-Follows b r).tracked in
    subst Layout (sym (refused_of t f e).1) (released-Layout m t.layout)
