-- ===== src/Run/Total.antt =====
-- `atomicEnd` of src/include/xrun.h returns, and what it has done then.
use grace.Prelude.{
  ◌≡◌, refl, sym, ap, subst, ◌∙◌, ◌⊎◌, inl, inr, true, false, List, [], ◌∷◌, ◌++◌, arith,
  Bool-cases,
}
use grace.Result.{ok, ◌>>=◌}
use grace.Persist.Isolation.{AllCurrent}
use grace.Memory.{Shared, Memory}
use grace.Memory
use grace.Memory.Commits.{Free}
use grace.Io.{File}
use grace.Io.Commit.{AllFew, ClosedLast, pending, closings, still_open, commit_lem}
use grace.Transaction.{Program, finish, image, run, Runs, Started}
use grace.Transaction.Serial.{commit-run, commit_decides, refused_commit}
use grace.Transaction.Restart.{begin-abort-Started}
use grace.System.Serial.{refused-Layout}
use grace.Run.{
  Run, Flow, goes_on, rolls_back, committed, sent, flushed, rolled_back, began, wait_pred,
  after_try, atomic_commit, atomic_end, atomic_end_with, abort,
}

pub wait_files : (r : Run) → (wait_pred r).files ≡ r.files
unfolding wait_pred
wait_files r = ground arith

wait_same : (r : Run) → (wait_pred r).pred ≡ r.pred
unfolding wait_pred
wait_same r = ground arith

-- A process after its commit, with `w` as it was after the wait.
abbrev after_commit : Run → Memory → Run
after_commit w m = record w {
  memory = m;
  files = still_open w.files;
  pred = 0;
  log = w.log ++ (committed ∷ sent (pending w.files ++ closings w.files) ∷ flushed ∷ []);
}

pub touched_end :
    (s : Shared) (r : Run)
    → Memory.is_nop r.memory ≡ false
    → atomic_commit s r
      ≡ (Memory.try_to_commit s r.memory >>= λ y. after_try y.1 y.2 (wait_pred r) y.0)
unfolding atomic_commit
touched_end s r n = rw (n, atomic_commit) refl

agreed_end :
    (s s' : Shared) (r : Run) (m : Memory)
    → AllFew r.files
    → ClosedLast r.files
    → Memory.is_nop r.memory ≡ false
    → Memory.try_to_commit s r.memory ≡ ok (true, s', m)
    → atomic_end s r ≡ ok (goes_on, s', after_commit (wait_pred r) m)
unfolding atomic_end after_try atomic_end_with
agreed_end s s' r m few last n tried =
    let sending =
      commit_lem (wait_pred r).files (subst AllFew (sym (wait_files r)) few)
        (subst ClosedLast (sym (wait_files r)) last) in
    rw (touched_end s r n, tried, sending) refl

pub refused_end :
    (s s' : Shared) (r : Run) (m : Memory)
    → Memory.is_nop r.memory ≡ false
    → Memory.try_to_commit s r.memory ≡ ok (false, s', m)
    → atomic_end s r ≡ ok (rolls_back, s', abort (record (wait_pred r) { memory = m }))
unfolding atomic_end after_try atomic_end_with
refused_end s s' r m n tried = rw (touched_end s r n, tried) refl

abort-log :
    (r : Run)
    → ((abort r).log ≡ r.log ++ (rolled_back ∷ began ∷ []))
      × ((abort r).files ≡ r.files)
      × ((abort r).memory ≡ Memory.begin (Memory.abort r.memory))
unfolding abort
abort-log r = (refl, refl, refl)

-- No page that the process has read has a new version.
abbrev pub Current : Shared → Memory → Type 0
Current s m = AllCurrent s.heap m.heap × AllCurrent s.globals m.globals

-- At the end of a transaction that began with its regions apart, all pages closed and nothing recorded
-- and touched something, with both locks free and with files that can be sent (at most one section
-- each, none but the last closed), `atomicEnd` returns. If no page that it read has a new version, it
-- goes on: the shared bytes are what the program makes of them alone, and the wait is followed by the
-- commit, the output and the flush of stdio. If some page has, it is rolled back: the shared files are
-- as they were, the next attempt starts afresh, and nothing is sent, but what was buffered for output
-- is still buffered.
pub atomic_end_total :
    {p : Program} {m₀ : Memory} (s : Shared) (r : Run)
    → Started m₀
    → Runs p m₀ s r.memory finish
    → Free s
    → AllFew r.files
    → ClosedLast r.files
    → Memory.is_nop r.memory ≡ false
    → (f : Flow) × (s' : Shared) × (r' : Run) × (atomic_end s r ≡ ok (f, s', r'))
      × ((Current s r.memory
            × (f ≡ goes_on)
            × (image s' ≡ run p (image s))
            × (r'.files ≡ still_open r.files)
            × (r'.log
                ≡ (wait_pred r).log
                  ++ (committed ∷ sent (pending r.files ++ closings r.files) ∷ flushed ∷ [])))
          ⊎ ((¬ Current s r.memory)
              × (f ≡ rolls_back)
              × (s' ≡ s)
              × Started r'.memory
              × (r'.files ≡ r.files)
              × (r'.log ≡ (wait_pred r).log ++ (rolled_back ∷ began ∷ []))))
atomic_end_total s r b ran free few last n =
    let (answer, s', m, tried, decides) = commit_decides b ran free in
    elim (Bool-cases answer) [
      | inl agreed ↦
          let tried' = rw agreed at tried in
          let same = wait_files r in
          (
            goes_on,
            s',
            after_commit (wait_pred r) m,
            agreed_end s s' r m few last n tried',
            inl (
              decides.0 agreed,
              refl,
              commit-run b ran free tried',
              ap still_open same,
              ap
                  (λ (fs : List File).
                    (wait_pred r).log
                    ++ (committed ∷ sent (pending fs ++ closings fs) ∷ flushed ∷ []))
                  same,
            ),
          )
      | inr denied ↦
          let tried' = rw denied at tried in
          let (log, files, memory) = abort-log (record (wait_pred r) { memory = m }) in
          (
            rolls_back,
            s',
            abort (record (wait_pred r) { memory = m }),
            refused_end s s' r m n tried',
            inr (
              λ c. (let both : true ≡ false = sym (decides.1 c) ∙ denied in cc),
              refl,
              refused_commit b ran free tried',
              subst Started (sym memory) (begin-abort-Started m (refused-Layout b ran free tried')),
              files ∙ wait_files r,
              log,
            ),
          )
    ]
