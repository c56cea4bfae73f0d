-- ===== src/Overlap/Serial.antt =====
-- Transactions and commits that overlap in any way are as if the transactions that committed ran one after the
-- other (src/include/xmemory.h, xpersist.h).
use grace.Prelude.{ℕ, ◌≡◌, ◌≢◌, refl, sym, ap, ◌∙◌, subst, true, false}
use grace.Persist.Region.{Store, Region}
use grace.Persist.Commit
use grace.Persist.Commit.{commit}
use grace.Persist.Writing.{Pages}
use grace.Memory.{Shared, Memory, consistent}
use grace.Memory
use grace.Memory.Instruction.{byte_at, set_byte}
use grace.Memory.Commits.{Free}
use grace.Transaction.{Image, image, run}
use grace.Transaction.Amid.{starts-FollowsAmid, loads-FollowsAmid, stores-FollowsAmid}
use grace.System.{run_all}
use grace.Locking.{put}
use grace.Locking.Owners.{Owned, Owned-kept, Owned-freed}
use grace.Locking.Rest.{lock-eq-ok}
use grace.Overlap.{
  idle, busy, has_heap, has_both, writing_heap, writing_globals, answered, heap_freed, Processes,
  set_heap, set_globals, at, after, Step, begins, loads, stores, skips, locks_heap, locks_globals,
  refuses, accepts, writes_heap, heap_done, writes_globals, globals_done, frees_heap, frees_globals,
  Reach, here, next, BeginsClosed, AllBeginClosed, start,
}
use grace.Overlap.Follows.{commits-run}
use grace.Overlap.Holding.{holds_heap, holds_globals, Quiet, with_heap_lock, Inv}
use grace.Overlap.Moving.{
  Inv-at, Inv-local, others_wait, runs, waits, keeps, Inv-locks_heap, Inv-locks_globals,
  Inv-globals_done, Moves-still, Rests-heap_lock, Rests-globals_lock, heap_lock-StageMoves,
  globals_lock-StageMoves, with_globals_lock,
}
use grace.Persist.Writing.{Write, begins as begins_page, copies, numbers}

Write-held :
    {r : Region} {s : Store} {u : Pages} {s' : Store} {u' : Pages}
    → Write r s u s' u'
    → s'.held ≡ s.held
Write-held (begins_page p) = refl
Write-held (copies i h) = refl
Write-held (numbers p h) = refl

-- The lock of a process that has it is held.
held_now :
    {f : Image} {σ : Processes} (v : Inv f σ) (i : ℕ)
    → holds_globals (σ.control i) ≡ true
    → σ.stage.shared.globals.held ≢ false
held_now v i h e = let both : true ≡ false = sym (v.globals_lock.held_by i h) ∙ e in cc

Step-Inv :
    {f : Image} (i : ℕ) {σ τ : Processes} → Inv f σ → (m : Step i σ τ) → BeginsClosed m → Inv f τ
unfolding Commit.unlock
Step-Inv i {σ} v (begins p m e) t =
    let c = busy p m p in
    Inv-local v i c (keeps v i holds_heap c e refl) (keeps v i holds_globals c e refl) tt
      (starts-FollowsAmid p σ.stage m t)
Step-Inv i {σ} v (loads p m m' l k e h z) begun =
    let c = busy p m' (k (byte_at σ.stage.shared m' l)) in
    Inv-local v i c (keeps v i holds_heap c e refl) (keeps v i holds_globals c e refl) tt
      (loads-FollowsAmid l (runs v i e) h z)
Step-Inv i {σ} v (stores p k m m' l w e h z) begun =
    let c = busy p (set_byte σ.stage.shared l w m') k in
    Inv-local v i c (keeps v i holds_heap c e refl) (keeps v i holds_globals c e refl) tt
      (stores-FollowsAmid l w (runs v i e) h z)
Step-Inv i v (skips p m e n) begun =
    let c = idle (Memory.begin (Memory.update_all m)) in
    Inv-local v i c (keeps v i holds_heap c e refl) (keeps v i holds_globals c e refl) tt tt
Step-Inv {f} i {σ} v (locks_heap p m h r e n z) begun =
    let (free, x, y) = lock-eq-ok σ.stage.shared.heap m.heap z in
    subst
      (λ q.
        Inv f (record (at σ i (has_heap p (record m { heap = r }))) { stage = set_heap q σ.stage }))
      x
      (subst
        (λ q. Inv f (record (at σ i (has_heap p (record m { heap = q }))) {
          stage = with_heap_lock true σ.stage;
        }))
        y (Inv-locks_heap v i p m e free))
Step-Inv {f} i {σ} v (locks_globals p m s r e z) begun =
    let (free, x, y) = lock-eq-ok σ.stage.shared.globals m.globals z in
    subst
      (λ q.
        Inv f (record (at σ i (has_both p (record m { globals = r }))) {
          stage = set_globals q σ.stage;
        }))
      x
      (subst
        (λ q. Inv f (record (at σ i (has_both p (record m { globals = q }))) {
          stage = with_globals_lock true σ.stage;
        }))
        y (Inv-locks_globals v i p m e free))
Step-Inv i v (refuses p m e z) begun =
    let c = answered false m in
    Inv-local v i c (keeps v i holds_heap c e refl) (keeps v i holds_globals c e refl) (waits v i e)
      tt
Step-Inv i {σ} v (accepts p m e z) begun =
    let c = writing_heap p m σ.stage.shared.heap in
    let rests = waits v i e in
    Inv-local v i c (keeps v i holds_heap c e refl) (keeps v i holds_globals c e refl)
      (
        rests.quiet.globals,
        λ h s r r' x y.
            commits-run (runs v i e) rests.quiet.heap rests.quiet.globals z h s r r' x y
            ∙ ap (run p) rests.holds,
      )
      tt
Step-Inv i {σ} v (writes_heap p m from h u e w z) begun =
    let c = writing_heap p m from in
    let g = record (set_heap h σ.stage) { heap = u } in
    Inv-at v i c g
      (subst (λ x. Owned holds_heap x (put i c σ.control)) (sym (Write-held w))
        (Owned-kept holds_heap σ.control i c v.heap_lock (keeps v i holds_heap c e refl)))
      (Owned-kept holds_globals σ.control i c v.globals_lock (keeps v i holds_globals c e refl))
      (record {
        heap = z;
        globals = Moves-still σ.stage.shared.globals σ.stage.shared.globals.held σ.stage.globals;
      })
      (λ x. absurd (held_now v i (ap holds_globals e) x)) (waits v i e)
      (λ j n. others_wait v i c (ap holds_globals e) v.base g j n) tt
Step-Inv i {σ} v (heap_done p m from r e none_heap done) begun =
    let c = writing_globals p (record m { heap = r }) σ.stage.shared.globals in
    let (_, result) = waits v i e in
    Inv-local v i c (keeps v i holds_heap c e refl) (keeps v i holds_globals c e refl)
      (none_heap, λ s r' x. result σ.stage.shared.heap s r r' done x) tt
Step-Inv i {σ} v (writes_globals p m from s u e w z) begun =
    let c = writing_globals p m from in
    let g = record (set_globals s σ.stage) { globals = u } in
    Inv-at v i c g (Owned-kept holds_heap σ.control i c v.heap_lock (keeps v i holds_heap c e refl))
      (subst (λ x. Owned holds_globals x (put i c σ.control)) (sym (Write-held w))
        (Owned-kept holds_globals σ.control i c v.globals_lock (keeps v i holds_globals c e refl)))
      (record {
        heap = Moves-still σ.stage.shared.heap σ.stage.shared.heap.held σ.stage.heap;
        globals = z;
      })
      (λ x. absurd (held_now v i (ap holds_globals e) (sym (Write-held w) ∙ x))) (waits v i e)
      (λ j n. others_wait v i c (ap holds_globals e) v.base g j n) tt
Step-Inv i v (globals_done p m from r e none_globals done) begun =
    Inv-globals_done v i p m from r e none_globals done
Step-Inv i {σ} v (frees_heap b m e) begun =
    let c = heap_freed b (record m { heap = (Commit.unlock σ.stage.shared.heap m.heap).1 }) in
    Inv-at v i c (with_heap_lock false σ.stage)
      (Owned-freed holds_heap σ.control i c v.heap_lock (ap holds_heap e) refl)
      (Owned-kept holds_globals σ.control i c v.globals_lock (keeps v i holds_globals c e refl))
      (heap_lock-StageMoves σ.stage false) (λ x. Rests-heap_lock false (v.free x))
      (Rests-heap_lock false (waits v i e))
      (λ j n. others_wait v i c (ap holds_globals e) v.base (with_heap_lock false σ.stage) j n) tt
Step-Inv i {σ} v (frees_globals b m e) begun =
    let c =
      idle (after b (record m { globals = (Commit.unlock σ.stage.shared.globals m.globals).1 })) in
    Inv-at v i c (with_globals_lock false σ.stage)
      (Owned-kept holds_heap σ.control i c v.heap_lock (keeps v i holds_heap c e refl))
      (Owned-freed holds_globals σ.control i c v.globals_lock (ap holds_globals e) refl)
      (globals_lock-StageMoves σ.stage false) (λ x. Rests-globals_lock false (waits v i e)) tt
      (λ j n. others_wait v i c (ap holds_globals e) v.base (with_globals_lock false σ.stage) j n)
      tt

Inv-start : (s : Shared) (memories : ℕ → Memory) → Free s → Inv (image s) (start s memories)
unfolding run_all
Inv-start s memories f = record {
  heap_lock = record { unique = λ i j p q. cc; held_by = λ i p. cc; holder = λ e. cc (f.heap) };
  globals_lock = record {
    unique = λ i j p q. cc;
    held_by = λ i p. cc;
    holder = λ e. cc (f.globals);
  };
  base = image s;
  effect = refl;
  free = λ e. record { holds = refl; quiet = record { heap = λ q. refl; globals = λ q. refl } };
  pending = λ i. tt;
  running = λ i. tt;
}

Reach-Inv :
    (s : Shared) (memories : ℕ → Memory) {σ : Processes}
    → Free s
    → (r : Reach (start s memories) σ) → AllBeginClosed r
    → Inv (image s) σ
Reach-Inv s memories f here b = Inv-start s memories f
Reach-Inv s memories f (next i r m) (b, c) = Step-Inv i (Reach-Inv s memories f r b) m c

-- Serializability, with everything taken apart. Any number of processes, with both locks free at the
-- start, run transactions; their loads and stores, and the locks, the check, the single writes and the
-- unlocks of their commits fall in any order, where a page that is numbered anew gets a later version.
-- Let every transaction of the run begin with its regions apart, all pages closed and nothing recorded.
-- Whenever the globals' lock is free, the bytes of heap and globals are those that the transactions
-- that have committed leave when they run alone, one after the other, in the order of their commits,
-- and no page is half written.
pub Reach-run_all :
    (s : Shared) (memories : ℕ → Memory) {σ : Processes}
    → Free s
    → (r : Reach (start s memories) σ) → AllBeginClosed r
    → σ.stage.shared.globals.held ≡ false
    → (image σ.stage.shared ≡ run_all σ.history (image s)) × Quiet σ.stage
Reach-run_all s memories f r b e =
    let v = Reach-Inv s memories f r b in
    let rests = v.free e in (rests.holds ∙ v.effect, rests.quiet)
