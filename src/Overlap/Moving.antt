-- ===== src/Overlap/Moving.antt =====
-- The steps of overlapping transactions and commits keep what is known of the processes and the files: the
-- locks, and the return of a commit.
use grace.Prelude.{ℕ, ◌≡◌, ◌≢◌, refl, sym, ap, ◌∙◌, subst, Bool, true, false, [], ◌∷◌, ◌++◌, arith}
use grace.Result.{ok}
use grace.Persist.Region.{Store, Region}
use grace.Persist.Commit.{commit}
use grace.Persist.Writing.{Pages, Moves}
use grace.Memory.{Memory}
use grace.Memory.Commits.{locked_region}
use grace.Transaction.{Program, finish, Image, run}
use grace.Transaction.Amid.{Stage, StageMoves}
use grace.System.Serial.{run_all-append}
use grace.Locking.{put}
use grace.Locking.Owners.{Owned, Owned-taken, Owned-kept, put_all}
use grace.Overlap.{Control, busy, has_heap, has_both, writing_globals, answered, Processes, at}
use grace.Overlap.Follows.{FollowsAmid-flags}
use grace.Overlap.Holding.{
  holds_heap, holds_globals, Rests, Pending, Running, Running-moves, no-Pending, with_heap_lock,
  Pending-heap_lock, Inv,
}

-- The pages of a file that nobody writes.
pub Moves-still : (s : Store) (b : Bool) (u : Pages) → Moves s u (record s { held = b }) u
Moves-still s b u = record {
  grows = λ p. omega arith;
  settled_before = λ p e h. e;
  same_bytes = λ i e h. refl;
}

pub StageMoves-refl : (g : Stage) → StageMoves g g
StageMoves-refl g = record {
  heap = Moves-still g.shared.heap g.shared.heap.held g.heap;
  globals = Moves-still g.shared.globals g.shared.globals.held g.globals;
}

module _ {f : Image} {σ : Processes} (v : Inv f σ) (i : ℕ) (c : Control) where
  -- Process `i` gets to `c`, and the files to `g`.
  pub Inv-at :
      (g : Stage)
      → Owned holds_heap g.shared.heap.held (put i c σ.control)
      → Owned holds_globals g.shared.globals.held (put i c σ.control)
      → StageMoves σ.stage g
      → (g.shared.globals.held ≡ false → Rests v.base g)
      → Pending v.base g c
      → ((j : ℕ) → j ≢ i → Pending v.base g (σ.control j))
      → Running g c
      → Inv f (record (at σ i c) { stage = g })
  Inv-at g heap globals e rests now others runs = record {
    heap_lock = heap;
    globals_lock = globals;
    base = v.base;
    effect = v.effect;
    free = rests;
    pending = λ j. put_all holds_heap σ.control i c (Pending v.base g) j now (others j);
    running = λ j.
        put_all holds_heap σ.control i c (Running g) j runs
          (λ n. Running-moves (σ.control j) e (v.running j));
  }

  -- The files and the locks stay as they are.
  pub Inv-local :
      holds_heap c ≡ holds_heap (σ.control i)
      → holds_globals c ≡ holds_globals (σ.control i)
      → Pending v.base σ.stage c
      → Running σ.stage c
      → Inv f (at σ i c)
  Inv-local h s now runs =
      Inv-at σ.stage (Owned-kept holds_heap σ.control i c v.heap_lock h)
        (Owned-kept holds_globals σ.control i c v.globals_lock s) (StageMoves-refl σ.stage) v.free
        now (λ j n. v.pending j) runs

  -- Nobody else has a commit under way while `i` has the globals' lock.
  pub others_wait :
      holds_globals (σ.control i) ≡ true
      → (b : Image) (g : Stage) (j : ℕ) → j ≢ i
      → Pending b g (σ.control j)
  others_wait h b g j n =
      no-Pending b g (σ.control j) (ground (arith, v.globals_lock.unique j i, h, n))

-- The locks do not matter to what the files hold.
pub Rests-heap_lock : {f : Image} {g : Stage} (b : Bool) → Rests f g → Rests f (with_heap_lock b g)
Rests-heap_lock b v = record {
  holds = v.holds;
  quiet = record { heap = v.quiet.heap; globals = v.quiet.globals };
}

abbrev pub with_globals_lock : Bool → Stage → Stage
with_globals_lock b g = record g {
  shared = record g.shared { globals = record g.shared.globals { held = b } };
}

pub Rests-globals_lock :
    {f : Image} {g : Stage} (b : Bool) → Rests f g → Rests f (with_globals_lock b g)
Rests-globals_lock b v = record {
  holds = v.holds;
  quiet = record { heap = v.quiet.heap; globals = v.quiet.globals };
}

pub heap_lock-StageMoves : (g : Stage) (b : Bool) → StageMoves g (with_heap_lock b g)
heap_lock-StageMoves g b = record {
  heap = Moves-still g.shared.heap b g.heap;
  globals = Moves-still g.shared.globals g.shared.globals.held g.globals;
}

pub globals_lock-StageMoves : (g : Stage) (b : Bool) → StageMoves g (with_globals_lock b g)
globals_lock-StageMoves g b = record {
  heap = Moves-still g.shared.heap g.shared.heap.held g.heap;
  globals = Moves-still g.shared.globals b g.globals;
}

module _ {f : Image} {σ : Processes} (v : Inv f σ) (i : ℕ) where
  pub runs : {c : Control} → σ.control i ≡ c → Running σ.stage c
  runs e = subst (Running σ.stage) e (v.running i)

  pub waits : {c : Control} → σ.control i ≡ c → Pending v.base σ.stage c
  waits e = subst (Pending v.base σ.stage) e (v.pending i)

  pub keeps :
      (holds : Control → Bool) {c : Control} (d : Control)
      → σ.control i ≡ c
      → holds d ≡ holds c
      → holds d ≡ holds (σ.control i)
  keeps holds d e h = h ∙ sym (ap holds e)

  pub Inv-locks_heap :
      (p : Program) (m : Memory)
      → σ.control i ≡ busy p m finish
      → σ.stage.shared.heap.held ≡ false
      → Inv f (record (at σ i (has_heap p (record m { heap = locked_region m.heap }))) {
        stage = with_heap_lock true σ.stage;
      })
  Inv-locks_heap p m e free =
      let c = has_heap p (record m { heap = locked_region m.heap }) in
      Inv-at v i c (with_heap_lock true σ.stage)
        (Owned-taken holds_heap σ.control i c v.heap_lock free refl)
        (Owned-kept holds_globals σ.control i c v.globals_lock (keeps holds_globals c e refl))
        (heap_lock-StageMoves σ.stage true) (λ h. Rests-heap_lock true (v.free h)) tt
        (λ j n. Pending-heap_lock v.base σ.stage true (σ.control j) (v.pending j))
        (Running-moves c (heap_lock-StageMoves σ.stage true)
          (FollowsAmid-flags true m.globals.is_locked (runs e)))

  pub Inv-locks_globals :
      (p : Program) (m : Memory)
      → σ.control i ≡ has_heap p m
      → σ.stage.shared.globals.held ≡ false
      → Inv f (record (at σ i (has_both p (record m { globals = locked_region m.globals }))) {
        stage = with_globals_lock true σ.stage;
      })
  Inv-locks_globals p m e free =
      let c = has_both p (record m { globals = locked_region m.globals }) in
      Inv-at v i c (with_globals_lock true σ.stage)
        (Owned-kept holds_heap σ.control i c v.heap_lock (keeps holds_heap c e refl))
        (Owned-taken holds_globals σ.control i c v.globals_lock free refl)
        (globals_lock-StageMoves σ.stage true) (λ h. cc) (Rests-globals_lock true (v.free free))
        (λ j n.
          no-Pending v.base (with_globals_lock true σ.stage) (σ.control j)
            (ground (arith, v.globals_lock.held_by j, free)))
        (Running-moves c (globals_lock-StageMoves σ.stage true)
          (FollowsAmid-flags m.heap.is_locked true (runs e)))

  pub Inv-globals_done :
      (p : Program) (m : Memory) (from : Store) (r : Region)
      → σ.control i ≡ writing_globals p m from
      → ((q : ℕ) → σ.stage.globals q ≡ false)
      → commit from m.globals ≡ ok (σ.stage.shared.globals, r)
      → Inv f (record (at σ i (answered true (record m { globals = r }))) {
        history = σ.history ++ (p ∷ []);
      })
  Inv-globals_done p m from r e none_globals done =
      let c = answered true (record m { globals = r }) in
      let (none_heap, result) = waits e in
      let mine : holds_globals (σ.control i) ≡ true = ap holds_globals e in
      let now : Rests (run p v.base) σ.stage = record {
        holds = result σ.stage.shared.globals r done;
        quiet = record { heap = none_heap; globals = none_globals };
      } in
      record {
        heap_lock = Owned-kept holds_heap σ.control i c v.heap_lock (keeps holds_heap c e refl);
        globals_lock =
            Owned-kept holds_globals σ.control i c v.globals_lock (keeps holds_globals c e refl);
        base = run p v.base;
        effect = ap (run p) v.effect ∙ sym (run_all-append σ.history p f);
        free = λ h. now;
        pending = λ j.
            put_all holds_heap σ.control i c (Pending (run p v.base) σ.stage) j now
              (λ n. others_wait v i c mine (run p v.base) σ.stage j n);
        running = λ j. put_all holds_heap σ.control i c (Running σ.stage) j tt (λ n. v.running j);
      }
