-- ===== src/Libc/Threads.antt =====
-- The thread functions of src/source/libgrace.cpp, and `printf`. Locks, attributes and scheduling calls
-- are answered without doing anything.
use grace.Prelude.{ℕ, Bool, Option, none, some, [], ◌∷◌, List}
use grace.Result.{Result, ok, ◌>>=◌}
use grace.Memory.{Shared}
use grace.Run.{Run, Flow, goes_on, rolls_back, buffered, marks, atomic_begin, atomic_end}
use grace.Thread.{ThreadStatus, Thread, ThreadFunction, Spawned, Disposal, spawn, sync}

-- The calls that do not reach `xrun::spawn` or `xrun::sync`.
pub data PthreadCall : Type 0 where
  sched_yield pthread_exit pthread_setconcurrency pthread_attr_init pthread_attr_destroy :
      PthreadCall
  pthread_self pthread_kill pthread_mutex_init pthread_mutex_lock pthread_mutex_trylock :
      PthreadCall
  pthread_mutex_unlock pthread_rwlock_destroy pthread_rwlock_init pthread_detach : PthreadCall
  pthread_rwlock_rdlock pthread_rwlock_tryrdlock pthread_rwlock_unlock : PthreadCall
  pthread_rwlock_trywrlock pthread_rwlock_wrlock pthread_attr_getstacksize : PthreadCall
  pthread_mutexattr_destroy pthread_mutexattr_init pthread_mutexattr_settype : PthreadCall
  pthread_mutexattr_gettype pthread_attr_setstacksize : PthreadCall

-- The result of a call; the number that it stores through its pointer and its result; the end of the
-- process by `_exit`; or an exception.
pub data Outcome : Type 0 where
  returns : ℕ → Outcome
  stores : ℕ → ℕ → Outcome
  exits : ℕ → Outcome
  throws : ℕ → Outcome

-- The calls, by a process whose `graceid` is `id`.
unfoldable pub answer : ℕ → PthreadCall → Outcome
answer id pthread_exit = exits 0
answer id pthread_self = returns id
answer id pthread_kill = throws 1
answer id pthread_attr_getstacksize = stores 1048576 0
answer id _ = returns 0

-- `pthread_create`: the thread's id is the address of its status object; the result is always 0.
unfoldable pub pthread_create :
    Bool → ThreadFunction → ℕ → ThreadStatus → Shared → Thread → Result (Shared × Spawned × ℕ)
unfolding spawn
pthread_create in_process fn child garbage s t = do
  (s', spawned) ← spawn in_process fn child garbage s t
  ok (s', spawned, 0)

-- `pthread_join`: the result is always 0.
unfoldable pub pthread_join :
    Option ThreadStatus
    → Shared
    → Thread
    → Result (Shared × Flow × Thread × Option (ℕ × Disposal) × ℕ)
unfolding sync
pthread_join status s t = do (s', f, t', answered) ← sync status s t; ok (s', f, t', answered, 0)

-- `printf` after `atomicEnd`: `vprintf` puts the text in the buffer of stdio, and the next transaction
-- begins.
unfoldable pub print_after : List ℕ → ℕ → Flow → Shared → Run → Flow × Shared × Run × Option ℕ
unfolding atomic_begin
print_after text v goes_on s r = (goes_on, s, atomic_begin (marks r (buffered text ∷ [])), some v)
print_after text v rolls_back s r = (rolls_back, s, r, none)

-- `printf` of a text for which `vprintf` answers `v`.
unfoldable pub printf : List ℕ → ℕ → Shared → Run → Result (Flow × Shared × Run × Option ℕ)
unfolding print_after
printf text v s r = do (f, s', r') ← atomic_end s r; ok (print_after text v f s' r')
