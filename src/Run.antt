-- ===== src/Run.antt =====
-- src/include/xrun.h: the transactions of one process, and the predecessor that each waits for.
-- `waitExited` blocks until the process has exited; here it leaves a mark in the log, and the shared
-- state that an operation is given is the one after that wait.
pub mod Order
pub mod Calls
pub mod Irrevocable
pub mod Pred
pub mod Keeps
pub mod Total
pub mod Retry
use grace.Prelude.{
  ℕ, ◌≡◌, Bool, true, false, List, [], ◌∷◌, ◌++◌, Option, none, some, ◌==◌, if◌then◌else◌,
}
use grace.Result.{Result, ok, aborted, ◌>>=◌}
use grace.Memory.{Shared, Memory}
use grace.Memory
use grace.Io.{File, Event}
use grace.Io

-- What a process does, in order: what other processes and the operating system see of it, the text that
-- it puts in the buffer of stdio (`buffered`), and `fflush`, which sends what that holds.
pub data Mark : Type 0 where
  waited_for : ℕ → Mark
  committed : Mark
  sent : List Event → Mark
  rolled_back : Mark
  exited : ℕ → Mark
  buffered : List ℕ → Mark
  flushed : Mark
  began : Mark

-- The `xrun` object; a `pred` of 0 stands for none.
pub record Run : Type 0 where
  pub memory : Memory
  pub files : List File
  pub pred : ℕ
  pub tid : ℕ
  pub initialized : Bool
  pub log : List Mark

-- Appended to the log.
abbrev pub marks : Run → List Mark → Run
marks r ms = record r { log = r.log ++ ms }

pub data CommitResult : Type 0 where
  failed succeeded optimized : CommitResult

unfoldable pub set_pred : ℕ → Run → Run
set_pred tid r = record r { pred = tid }

unfoldable pub wait_pred : Run → Run
wait_pred r = if r.pred == 0 then r else marks r (waited_for r.pred ∷ [])

-- The end of `atomicCommit`, by the answer of `tryToCommit`.
unfoldable pub after_try : Shared → Memory → Run → Bool → Result (CommitResult × Shared × Run)
after_try s m r false = ok (CommitResult.failed, s, record r { memory = m })
after_try s m r true = do
  (events, files) ← Io.commit r.files
  ok (
    CommitResult.succeeded,
    s,
    marks (record r { memory = m; files = files }) (committed ∷ sent events ∷ flushed ∷ []),
  )

-- `atomicCommit`.
unfoldable pub atomic_commit : Shared → Run → Result (CommitResult × Shared × Run)
unfolding wait_pred after_try
atomic_commit s r = elim (Memory.is_nop r.memory) [
  | true ↦ ok (CommitResult.optimized, s, record r { memory = Memory.update_all r.memory })
  | false ↦ do (done, s', m') ← Memory.try_to_commit s r.memory; after_try s' m' (wait_pred r) done
]

-- `abort`: the memory is rolled back, and control goes back to the last `atomicBegin`, which starts
-- the transaction anew.
unfoldable pub abort : Run → Run
abort r =
    marks (record r { memory = Memory.begin (Memory.abort r.memory) }) (rolled_back ∷ began ∷ [])

-- `atomicBegin`: the context saved is the point where this transaction starts.
unfoldable pub atomic_begin : Run → Run
atomic_begin r = marks (record r { memory = Memory.begin r.memory }) (began ∷ [])

-- Whether the caller goes on, or the transaction was rolled back to its start.
pub data Flow : Type 0 where
  goes_on rolls_back : Flow

unfoldable pub atomic_end_with : CommitResult → Run → Flow × Run
unfolding abort
atomic_end_with CommitResult.failed r = (rolls_back, abort r)
atomic_end_with CommitResult.succeeded r = (goes_on, record r { pred = 0 })
atomic_end_with CommitResult.optimized r = (goes_on, r)

-- `atomicEnd`.
unfoldable pub atomic_end : Shared → Run → Result (Flow × Shared × Run)
unfolding atomic_end_with
atomic_end s r = do
  (c, s', r') ← atomic_commit s r
  let (f, r'') = atomic_end_with c r'
  ok (f, s', r'')

-- `punctuate`.
unfoldable pub punctuate : Shared → Run → Result (Flow × Shared × Run)
unfolding atomic_begin
punctuate s r = do
  (f, s', r') ← atomic_end s r
  elim f [ goes_on ↦ ok (goes_on, s', atomic_begin r') | rolls_back ↦ ok (rolls_back, s', r') ]

unfoldable pub after_check : Shared → Run → Bool → Flow × Shared × Run
unfolding abort
after_check s r true = (goes_on, s, r)
after_check s r false = (rolls_back, s, abort r)

-- `ensureIrrevocable`, before each call of the operating system.
unfoldable pub ensure_irrevocable : Shared → Run → Result (Flow × Shared × Run)
unfolding wait_pred after_check
ensure_irrevocable s r = do
  (consistent, s', m') ← Memory.is_consistent s r.memory
  ok (after_check s' (record (wait_pred r) { memory = m' }) consistent)

-- `finalize`.
unfoldable pub finalize : Shared → Run → Result (Flow × Shared × Run)
unfolding wait_pred
finalize s r = if r.tid == 0 then ok (goes_on, s, wait_pred r) else do
  (f, s', r') ← atomic_end s r
  elim f [ goes_on ↦ ok (goes_on, s', wait_pred r') | rolls_back ↦ ok (rolls_back, s', r') ]
