-- ===== src/Sequence/Parts.antt =====
-- The two processes after a `fork` (src/source/xthread.cpp), and the shared bytes.
use grace.Prelude.{ℕ, ◌≡◌, sym, ap, ◌∙◌, true, false}
use grace.Result.{ok}
use grace.Memory.{Shared, Memory}
use grace.Memory
use grace.Memory.Commits.{Free}
use grace.Transaction.{Program, finish, image, run, Started, Runs}
use grace.Run.{Run, goes_on, set_pred, atomic_begin}
use grace.Run.Order.{atomic_end-nop}
use grace.Run.Keeps.{atomic_end-tid, atomic_end-run}
use grace.Thread.{ThreadStatus, Thread, ThreadFunction, fork_parent, forked_off, fork_spawn, spawn}
use grace.Thread.Chain.{Forks, spawn-Forks, forked_ways, forked_parts}

-- The ids and the predecessors.
pub record Parts (i : ℕ) (t parent child : Thread) : Type 0 where
  pub parent_tid : parent.run.tid ≡ t.run.tid
  pub parent_pred : parent.run.pred ≡ i
  pub child_tid : child.run.tid ≡ i

parent_keeps :
    (i : ℕ) (garbage status : ThreadStatus) (t parent c : Thread)
    → forked_off parent status c ≡ fork_spawn i garbage t
    → parent.run.tid ≡ t.run.tid
unfolding fork_parent set_pred atomic_begin
parent_keeps i garbage status t parent c e =
    ap (λ x. x.run.tid) (forked_ways i garbage status t parent c e).0

module _ (fn : ThreadFunction) (i : ℕ) (garbage status : ThreadStatus) (s s' : Shared)
    (t parent child : Thread)
    (e : spawn false fn i garbage s t ≡ ok (s', forked_off parent status child)) where
  forks : Forks i garbage s s' t (forked_off parent status child)
  forks = spawn-Forks fn i garbage s s' t (forked_off parent status child) e (λ u h. cc)

  pub spawn-Parts : Parts i t parent child
  spawn-Parts =
      let t' : Thread = record t { run = forks.ended } in
      let (p, c, _, _, _, _) = forked_parts i garbage status t' parent child forks.result in
      record {
        parent_tid =
            parent_keeps i garbage status t' parent child forks.result
            ∙ atomic_end-tid s s' t.run forks.ended goes_on forks.went_on;
        parent_pred = p;
        child_tid = c;
      }

  -- After a transaction that touched nothing the child has the parent's predecessor, and the shared
  -- files are as they were.
  pub quiet_child : Memory.is_nop t.run.memory ≡ true → (child.run.pred ≡ t.run.pred) × (s' ≡ s)
  quiet_child n =
      let t' : Thread = record t { run = forks.ended } in
      let (_, _, _, _, _, c) = forked_parts i garbage status t' parent child forks.result in
      let nop = atomic_end-nop s t.run n in
      let same : record t.run { memory = Memory.update_all t.run.memory } ≡ forks.ended =
        cc (nop, forks.went_on) in
      (c ∙ sym (ap (λ (x : Run). x.pred) same), cc (nop, forks.went_on))

  -- A transaction that touched something is committed before the `fork`.
  pub spawn-run :
      (p : Program) {m₀ : Memory}
      → Started m₀
      → Runs p m₀ s t.run.memory finish
      → Free s
      → Memory.is_nop t.run.memory ≡ false
      → image s' ≡ run p (image s)
  spawn-run p b ran free n = atomic_end-run s s' t.run forks.ended b ran free n forks.went_on
