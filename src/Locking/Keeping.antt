-- ===== src/Locking/Keeping.antt =====
-- The steps of calls of `tryToCommit` and `isConsistent` of src/include/xmemory.h keep what is known of the
-- locks and the files.
use grace.Prelude.{ℕ, ◌≡◌, refl, sym, ◌∙◌, ap, subst, Bool, true, false, [], ◌∷◌, ◌++◌, arith}
use grace.Persist.Region.{Region}
use grace.Persist.Commit
use grace.Memory.{Shared, Memory}
use grace.Locking.{
  Task, Control, outside, has_heap, has_both, heap_committed, answered, heap_freed, Commits, put,
  set_heap, set_globals, attempt, none_done, one_more, Step, locks_heap, locks_globals, checks,
  commits_heap, commits_globals, frees_heap, frees_globals, Reach, here, next, start,
}
use grace.Locking.Owners.{holds_heap, holds_globals, Owned-taken, Owned-kept, Owned-freed, put_all}
use grace.Memory.Commits.{Free, locked_store, locked_region}
use grace.Locking.Rest.{
  contents, rest, whole, rest-checks, rest-commits_heap, rest-commits_globals, commit-held,
  lock-eq-ok, rest-contents, rest-locked,
}
use grace.Locking.Invariant.{Inv, Took, Left, Inv-both, Inv-frees_heap}

Inv-locks_heap :
    {s : Shared} {σ : Commits} (v : Inv s σ) (i : ℕ) (w : Task)
    → σ.control i ≡ outside
    → σ.shared.heap.held ≡ false
    → Inv s (record σ {
      shared = set_heap (locked_store σ.shared.heap) σ.shared;
      control = put i (has_heap w (locked_region w.memory.heap)) σ.control;
    })
Inv-locks_heap {σ} v i w at free = record {
  heap_lock = Owned-taken holds_heap σ.control i now v.heap_lock free refl;
  globals_lock =
      Owned-kept holds_globals σ.control i now v.globals_lock (sym (ap holds_globals at));
  took = λ j. put_all holds_globals σ.control i now Took j (λ x q e. ground arith) (λ n. v.took j);
  base = v.base;
  serial = v.serial;
  idle = v.idle;
  busy = λ j.
      put_all holds_globals σ.control i now
        (Left (set_heap (locked_store σ.shared.heap) σ.shared) v.base) j (λ h. cc)
        (λ n h. rest-contents (σ.control j) σ.shared _ (not_held j) refl ∙ v.busy j h);
}
  where
    now : Control
    now = has_heap w (locked_region w.memory.heap)

    not_held : (j : ℕ) → holds_heap (σ.control j) ≡ false
    not_held j = ground (arith, v.heap_lock.held_by j)

Inv-locks_globals :
    {s : Shared} {σ : Commits} (v : Inv s σ) (i : ℕ) (w : Task) (r : Region)
    → σ.control i ≡ has_heap w r
    → σ.shared.globals.held ≡ false
    → Inv s (record σ {
      shared = set_globals (locked_store σ.shared.globals) σ.shared;
      control =
          put i
            (has_both w (record w.memory { heap = r; globals = locked_region w.memory.globals }))
            σ.control;
    })
Inv-locks_globals {σ} v i w r at free = record {
  heap_lock = Owned-kept holds_heap σ.control i now v.heap_lock (sym (ap holds_heap at));
  globals_lock = Owned-taken holds_globals σ.control i now v.globals_lock free refl;
  took = λ j. put_all holds_globals σ.control i now Took j (λ x q e. cc) (λ n. v.took j);
  base = v.base;
  serial = v.serial;
  idle = λ e. cc;
  busy = λ j.
      put_all holds_globals σ.control i now
        (Left (set_globals (locked_store σ.shared.globals) σ.shared) v.base) j (λ h. left)
        (λ n h. absurd (taken (v.globals_lock.held_by j h)));
}
  where
    now : Control
    now = has_both w (record w.memory { heap = r; globals = locked_region w.memory.globals })

    taken : σ.shared.globals.held ≡ true → ⊥
    taken h = cc

    left : rest now (set_globals (locked_store σ.shared.globals) σ.shared) ≡ whole now v.base
    left =
        rest-locked w σ.shared r (sym (v.took i w r at)) (v.heap_lock.held_by i (ap holds_heap at))
        ∙ ap (attempt w) (v.idle free)

Inv-frees_globals :
    {s : Shared} {σ : Commits} (v : Inv s σ) (i : ℕ) (w : Task) (b : Bool) (m : Memory)
    → σ.control i ≡ heap_freed w b m
    → Inv s (record {
      shared = set_globals (record σ.shared.globals { held = false }) σ.shared;
      control = put i outside σ.control;
      history = σ.history ++ ((w, b) ∷ []);
    })
Inv-frees_globals {σ} v i w b m at = record {
  heap_lock = Owned-kept holds_heap σ.control i outside v.heap_lock (sym (ap holds_heap at));
  globals_lock =
      Owned-freed holds_globals σ.control i outside v.globals_lock (ap holds_globals at) refl;
  took = λ j. put_all holds_globals σ.control i outside Took j (λ x q e. cc) (λ n. v.took j);
  base = contents σ.shared;
  serial =
      one_more w b v.serial
        (sym (subst (λ c. rest c σ.shared ≡ whole c v.base) at (v.busy i (ap holds_globals at))));
  idle = λ e. refl;
  busy = λ j.
      put_all holds_globals σ.control i outside (Left _ (contents σ.shared)) j (λ h. cc)
        (λ n h. absurd (n (v.globals_lock.unique j i h (ap holds_globals at))));
}

Inv-step : (i : ℕ) {s : Shared} {σ τ : Commits} → Inv s σ → Step i σ τ → Inv s τ
unfolding Commit.unlock
Inv-step i {s = s} {σ = σ} v (locks_heap w h r at e) =
    let (free, p, q) = lock-eq-ok σ.shared.heap w.memory.heap e in
    subst
      (λ x.
        Inv s (record σ { shared = set_heap x σ.shared; control = put i (has_heap w r) σ.control }))
      p
      (subst
        (λ x. Inv s (record σ {
          shared = set_heap (locked_store σ.shared.heap) σ.shared;
          control = put i (has_heap w x) σ.control;
        }))
        q (Inv-locks_heap v i w at free))
Inv-step i {s = s} {σ = σ} v (locks_globals w r g q at e) =
    let (free, p, k) = lock-eq-ok σ.shared.globals w.memory.globals e in
    subst
      (λ x. Inv s (record σ {
        shared = set_globals x σ.shared;
        control = put i (has_both w (record w.memory { heap = r; globals = q })) σ.control;
      }))
      p
      (subst
        (λ x. Inv s (record σ {
          shared = set_globals (locked_store σ.shared.globals) σ.shared;
          control = put i (has_both w (record w.memory { heap = r; globals = x })) σ.control;
        }))
        k (Inv-locks_globals v i w r at free))
Inv-step i {σ = σ} v (checks w m b at e why) =
    Inv-both v i at (answered w b m) σ.shared refl refl refl refl refl refl
      (rest-checks w m σ.shared b e why) (λ x. refl)
Inv-step i {σ = σ} v (commits_heap w m h r at called e done) =
    Inv-both v i at (heap_committed w (record m { heap = r })) (set_heap h σ.shared) refl refl refl
      refl (commit-held σ.shared.heap m.heap done) refl
      (rest-commits_heap w m σ.shared h r called e done) (λ x. refl)
Inv-step i {σ = σ} v (commits_globals w m g r at done) =
    Inv-both v i at (answered w true (record m { globals = r })) (set_globals g σ.shared) refl refl
      refl refl refl (commit-held σ.shared.globals m.globals done)
      (rest-commits_globals w m σ.shared g r done) (λ x. refl)
Inv-step i {σ = σ} v (frees_heap w b m at) =
    Inv-frees_heap v i at
      (heap_freed w b (record m { heap = (Commit.unlock σ.shared.heap m.heap).1 }))
      (set_heap (Commit.unlock σ.shared.heap m.heap).0 σ.shared) refl refl refl refl refl refl refl
      (λ x. refl)
Inv-step i v (frees_globals w b m at) = Inv-frees_globals v i w b m at

Inv-start : (s : Shared) → Free s → Inv s (start s)
Inv-start s f = record {
  heap_lock = record { unique = λ i j p q. cc; held_by = λ i p. cc; holder = λ e. cc (f.heap) };
  globals_lock = record {
    unique = λ i j p q. cc;
    held_by = λ i p. cc;
    holder = λ e. cc (f.globals);
  };
  took = λ i w r e. cc;
  base = s;
  serial = none_done;
  idle = λ e. ground (arith, f.heap, f.globals);
  busy = λ i h. cc;
}

pub Reach-Inv : {s : Shared} {σ : Commits} → Free s → Reach (start s) σ → Inv s σ
Reach-Inv {s} f here = Inv-start s f
Reach-Inv f (next i r m) = Inv-step i (Reach-Inv f r) m
