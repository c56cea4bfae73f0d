-- ===== src/Run/Calls.antt =====
-- The calls of the operating system that src/include/xrun.h forwards to src/include/xio.h, each behind
-- `ensureIrrevocable`.
use grace.Prelude.{ℕ, Bool, List, [], ◌∷◌, Option, none, some}
use grace.Result.{Result, ok, ◌>>=◌}
use grace.Memory.{Shared}
use grace.Io.{File, Event, Whence}
use grace.Io
use grace.Run.{Run, sent, Flow, goes_on, rolls_back, marks, ensure_irrevocable}

-- What a call does to the files: what it sends, the files it leaves, and its answer.
abbrev pub Call : Type 0 → Type 0
Call B = List File → Result (List Event × List File × B)

-- A call that sends nothing.
abbrev pub quiet : {B : Type 0} → (List File → List File × B) → Call B
quiet g files = let (left, answer) = g files in ok ([], left, answer)

-- The call itself, once the process goes on.
unfoldable pub performed :
    {B : Type 0} → Call B → Shared → Run → Result (Flow × Shared × Run × Option B)
performed call s r = do
  (events, files, answer) ← call r.files
  ok (goes_on, s, marks (record r { files = files }) (sent events ∷ []), some answer)

unfoldable pub after_ensure :
    {B : Type 0} → Call B → Flow → Shared → Run → Result (Flow × Shared × Run × Option B)
unfolding performed
after_ensure call goes_on s r = performed call s r
after_ensure call rolls_back s r = ok (rolls_back, s, r, none)

-- `ensureIrrevocable`, then the call.
unfoldable pub forward :
    {B : Type 0} → Call B → Shared → Run → Result (Flow × Shared × Run × Option B)
unfolding after_ensure
forward call s r = do (f, s', r') ← ensure_irrevocable s r; after_ensure call f s' r'

-- `open` and `accept`, by what the system answers.
unfoldable pub open_path :
    Option ℕ → Shared → Run → Result (Flow × Shared × Run × Option (Option ℕ))
unfolding forward
open_path opened = forward (quiet (Io.open_file opened))

unfoldable pub accept : Option ℕ → Shared → Run → Result (Flow × Shared × Run × Option (Option ℕ))
unfolding forward
accept accepted = forward (quiet (Io.open_file accepted))

unfoldable pub connect : Bool → ℕ → Shared → Run → Result (Flow × Shared × Run × Option ℕ)
unfolding forward
connect succeeded fd = forward (quiet (Io.connect succeeded fd))

unfoldable pub close : ℕ → Shared → Run → Result (Flow × Shared × Run × Option Bool)
unfolding forward
close fd = forward (quiet (Io.close fd))

unfoldable pub write : ℕ → List ℕ → Shared → Run → Result (Flow × Shared × Run × Option (Option ℕ))
unfolding forward
write fd bytes = forward (quiet (Io.write fd bytes))

unfoldable pub read : List ℕ → Shared → Run → Result (Flow × Shared × Run × Option (List ℕ))
unfolding forward
read answer = forward (Io.read answer)

unfoldable pub lseek :
    Bool
    → ℕ
    → ℕ
    → Whence
    → Option ℕ
    → Shared
    → Run
    → Result (Flow × Shared × Run × Option (Option ℕ))
unfolding forward
lseek asserts fd off whence result = forward (Io.lseek asserts fd off whence result)
