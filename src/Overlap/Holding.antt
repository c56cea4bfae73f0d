-- ===== src/Overlap/Holding.antt =====
-- Who has which lock while transactions and commits overlap, and what is known of each process.
use grace.Prelude.{ℕ, ◌≡◌, Bool, true, false}
use grace.Result.{ok}
use grace.Persist.Region.{Store, Region}
use grace.Persist.Commit.{commit}
use grace.Transaction.{finish, Image, image, run}
use grace.Transaction.Amid.{Stage, StageMoves, FollowsAmid, others-FollowsAmid}
use grace.System.{run_all}
use grace.Locking.Owners.{Owned}
use grace.Overlap.{
  Control, idle, busy, has_heap, has_both, writing_heap, writing_globals, answered, heap_freed,
  Processes,
}

abbrev pub holds_heap : Control → Bool
holds_heap (has_heap p m) = true
holds_heap (has_both p m) = true
holds_heap (writing_heap p m from) = true
holds_heap (writing_globals p m from) = true
holds_heap (answered b m) = true
holds_heap (idle m) = false
holds_heap (busy p m k) = false
holds_heap (heap_freed b m) = false

abbrev pub holds_globals : Control → Bool
holds_globals (has_both p m) = true
holds_globals (writing_heap p m from) = true
holds_globals (writing_globals p m from) = true
holds_globals (answered b m) = true
holds_globals (heap_freed b m) = true
holds_globals (idle m) = false
holds_globals (busy p m k) = false
holds_globals (has_heap p m) = false

-- No page is under way.
pub record Quiet (g : Stage) : Type 0 where
  pub heap : (q : ℕ) → g.heap q ≡ false
  pub globals : (q : ℕ) → g.globals q ≡ false

-- The files hold the bytes `f`, and no page is under way.
pub record Rests (f : Image) (g : Stage) : Type 0 where
  pub holds : image g.shared ≡ f
  pub quiet : Quiet g

-- The process that has the globals' lock: what its commit leaves, if it has begun one, is what its program makes
-- of `f`; before and after the files hold `f`.
abbrev pub Pending : Image → Stage → Control → Type 0
Pending f g (has_both p m) = Rests f g
Pending f g (writing_heap p m from) =
    ((q : ℕ) → g.globals q ≡ false)
    × ((h s : Store) (r r' : Region)
        → commit from m.heap ≡ ok (h, r)
        → commit g.shared.globals m.globals ≡ ok (s, r')
        → image (record { heap = h; globals = s }) ≡ run p f)
Pending f g (writing_globals p m from) =
    ((q : ℕ) → g.heap q ≡ false)
    × ((s : Store) (r : Region)
        → commit from m.globals ≡ ok (s, r)
        → image (record { heap = g.shared.heap; globals = s }) ≡ run p f)
Pending f g (answered b m) = Rests f g
Pending f g (heap_freed b m) = Rests f g
Pending f g (idle m) = Unit {0}
Pending f g (busy p m k) = Unit {0}
Pending f g (has_heap p m) = Unit {0}

-- A process before its check follows its program.
abbrev pub Running : Stage → Control → Type 0
Running g (busy p m k) = FollowsAmid p g m k
Running g (has_heap p m) = FollowsAmid p g m finish
Running g (has_both p m) = FollowsAmid p g m finish
Running g (writing_heap p m from) = Unit {0}
Running g (writing_globals p m from) = Unit {0}
Running g (answered b m) = Unit {0}
Running g (heap_freed b m) = Unit {0}
Running g (idle m) = Unit {0}

pub Running-moves : {g g' : Stage} (c : Control) → StageMoves g g' → Running g c → Running g' c
Running-moves (busy p m k) e w = others-FollowsAmid w e
Running-moves (has_heap p m) e w = others-FollowsAmid w e
Running-moves (has_both p m) e w = others-FollowsAmid w e
Running-moves (writing_heap p m from) e w = tt
Running-moves (writing_globals p m from) e w = tt
Running-moves (answered b m) e w = tt
Running-moves (heap_freed b m) e w = tt
Running-moves (idle m) e w = tt

-- Who does not have the globals' lock has no commit under way.
pub no-Pending : (f : Image) (g : Stage) (c : Control) → holds_globals c ≡ false → Pending f g c
no-Pending f g (has_both p m) e = cc
no-Pending f g (writing_heap p m from) e = cc
no-Pending f g (writing_globals p m from) e = cc
no-Pending f g (answered b m) e = cc
no-Pending f g (heap_freed b m) e = cc
no-Pending f g (idle m) e = tt
no-Pending f g (busy p m k) e = tt
no-Pending f g (has_heap p m) e = tt

-- The heap's lock is taken or given back.
abbrev pub with_heap_lock : Bool → Stage → Stage
with_heap_lock b g = record g {
  shared = record g.shared { heap = record g.shared.heap { held = b } };
}

pub Pending-heap_lock :
    (f : Image) (g : Stage) (b : Bool) (c : Control)
    → Pending f g c
    → Pending f (with_heap_lock b g) c
Pending-heap_lock f g b (has_both p m) v = record {
  holds = v.holds;
  quiet = record { heap = v.quiet.heap; globals = v.quiet.globals };
}
Pending-heap_lock f g b (writing_heap p m from) v = v
Pending-heap_lock f g b (writing_globals p m from) v = v
Pending-heap_lock f g b (answered x m) v = record {
  holds = v.holds;
  quiet = record { heap = v.quiet.heap; globals = v.quiet.globals };
}
Pending-heap_lock f g b (heap_freed x m) v = record {
  holds = v.holds;
  quiet = record { heap = v.quiet.heap; globals = v.quiet.globals };
}
Pending-heap_lock f g b (idle m) v = tt
Pending-heap_lock f g b (busy p m k) v = tt
Pending-heap_lock f g b (has_heap p m) v = tt

pub record Inv (f : Image) (σ : Processes) : Type 0 where
  pub heap_lock : Owned holds_heap σ.stage.shared.heap.held σ.control
  pub globals_lock : Owned holds_globals σ.stage.shared.globals.held σ.control
  pub base : Image
  pub effect : base ≡ run_all σ.history f
  pub free : σ.stage.shared.globals.held ≡ false → Rests base σ.stage
  pub pending : (i : ℕ) → Pending base σ.stage (σ.control i)
  pub running : (i : ℕ) → Running σ.stage (σ.control i)
