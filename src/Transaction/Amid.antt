-- ===== src/Transaction/Amid.antt =====
-- A transaction whose loads and stores fall also between the steps of other processes' commits. `commit` of
-- src/include/xpersist.h writes a page byte for byte and numbers it anew after that; until then the
-- page is under way.
use grace.Prelude.{ℕ, ◌/◌, ◌≡◌, ◌∙◌, true, false, some, arith}
use grace.Defines.{page_size}
use grace.Result.{ok}
use grace.Persist.PageSet.{has}
use grace.Persist.Region.{Store, Region}
use grace.Persist.Isolation.{Tracks, AllCurrent}
use grace.Persist.Interference.{Agrees}
use grace.Persist.Writing.{Pages, Moves}
use grace.Memory.{Shared, Memory, try_to_commit}
use grace.Memory.Instruction.{
  Location, heap_at, globals_at, address, Inside, allows_read, allows_write, settle, byte_at,
  set_byte,
}
use grace.Memory.Tracking.{Tracked}
use grace.Memory.Commits.{Free}
use grace.Memory.Settling.{Settles}
use grace.Memory.Progress.{access_of}
use grace.Transaction.{Program, finish, load, store, image, run, Started}
use grace.Transaction.Follows.{Follows, starts-Follows, Settles-Follows, loads-Follows}
use grace.Transaction.Steps.{settled, writable, stores-Follows, set_byte-Tracked}
use grace.Transaction.Serial.{Follows-commit}

-- The shared files, with the pages of both that are under way.
pub record Stage : Type 0 where
  pub shared : Shared
  pub heap : Pages
  pub globals : Pages

pub record StageMoves (g g' : Stage) : Type 0 where
  pub heap : Moves g.shared.heap g.heap g'.shared.heap g'.heap
  pub globals : Moves g.shared.globals g.globals g'.shared.globals g'.globals

-- `RunsAmid p m₀ g m k`: a transaction that began as `p`, with the process's memory at `m₀`, has come
-- to `k`.
pub data RunsAmid (p : Program) (m₀ : Memory) : Stage → Memory → Program → Type 0 where
  starts : (g : Stage) → RunsAmid p m₀ g m₀ p
  loads :
      {g : Stage} {m : Memory} {l : Location} {k : ℕ → Program} (m' : Memory)
      → RunsAmid p m₀ g m (load l k)
      → Inside m l
      → settle 3 allows_read g.shared (address m l) m ≡ some m'
      → RunsAmid p m₀ g m' (k (byte_at g.shared m' l))
  stores :
      {g : Stage} {m : Memory} {l : Location} {v : ℕ} {k : Program} (m' : Memory)
      → RunsAmid p m₀ g m (store l v k)
      → Inside m l
      → settle 3 allows_write g.shared (address m l) m ≡ some m'
      → RunsAmid p m₀ g (set_byte g.shared l v m') k
  others :
      {g : Stage} {m : Memory} {k : Program} (g' : Stage)
      → RunsAmid p m₀ g m k
      → StageMoves g g'
      → RunsAmid p m₀ g' m k

-- No page under way has been read.
pub record Untouched (g : Stage) (m : Memory) : Type 0 where
  pub heap : (p : ℕ) → has p m.heap.read ≡ true → g.heap p ≡ false
  pub globals : (p : ℕ) → has p m.globals.read ≡ true → g.globals p ≡ false

pub record FollowsAmid (p : Program) (g : Stage) (m : Memory) (k : Program) : Type 0 where
  pub tracked : Tracked g.shared m
  pub follows : Untouched g m → Follows p g.shared m k

module _ {s s' : Store} {u u' : Pages} {r : Region} (t : Tracks s r) (e : Moves s u s' u')
    (c : AllCurrent s' r) (clear : (p : ℕ) → has p r.read ≡ true → u' p ≡ false) where
  same_version : (p : ℕ) → has p r.read ≡ true → s'.versions p ≡ s.versions p
  same_version p h = omega (arith, t.not_newer p h, e.grows p, c p h)

  Moves-AllCurrent : AllCurrent s r
  Moves-AllCurrent p h = c p h ∙ same_version p h

  Moves-clear : (p : ℕ) → has p r.read ≡ true → u p ≡ false
  Moves-clear p h = e.settled_before p (clear p h) (same_version p h)

  Moves-Agrees : (f : ℕ → ℕ) → Agrees s' r f → Agrees s r f
  Moves-Agrees f a i h =
      a i h ∙ e.same_bytes i (clear (i / page_size) h) (same_version (i / page_size) h)

Moves-Tracks :
    {s s' : Store} {u u' : Pages} {r : Region} → Tracks s r → Moves s u s' u' → Tracks s' r
Moves-Tracks t e = record {
  private = t.private;
  open_read = t.open_read;
  write_dirty = t.write_dirty;
  copied_dirty = t.copied_dirty;
  dirty_read = t.dirty_read;
  numbered = t.numbered;
  not_newer = λ p h. omega (arith, t.not_newer p h, e.grows p);
  inside = t.inside;
}

pub others-FollowsAmid :
    {p : Program} {g g' : Stage} {m : Memory} {k : Program}
    → FollowsAmid p g m k
    → StageMoves g g'
    → FollowsAmid p g' m k
others-FollowsAmid {g'} {m} w e = record {
  tracked = tracked';
  follows = λ clear. record {
    tracked = tracked';
    same = λ f v.
        let heap_clear = Moves-clear w.tracked.heap e.heap v.heap_current clear.heap in
        let globals_clear =
          Moves-clear w.tracked.globals e.globals v.globals_current clear.globals in
        (w.follows (record { heap = heap_clear; globals = globals_clear })).same f (record {
          heap_current = Moves-AllCurrent w.tracked.heap e.heap v.heap_current clear.heap;
          globals_current =
              Moves-AllCurrent w.tracked.globals e.globals v.globals_current clear.globals;
          heap_agrees =
              Moves-Agrees w.tracked.heap e.heap v.heap_current clear.heap f.heap v.heap_agrees;
          globals_agrees =
              Moves-Agrees w.tracked.globals e.globals v.globals_current clear.globals f.globals
                v.globals_agrees;
        });
  };
}
  where
    tracked' : Tracked g'.shared m
    tracked' = record {
      layout = w.tracked.layout;
      heap = Moves-Tracks w.tracked.heap e.heap;
      globals = Moves-Tracks w.tracked.globals e.globals;
      heap_seen = w.tracked.heap_seen;
      globals_seen = w.tracked.globals_seen;
    }

-- What was read before an instruction got through has still been read.
Settles-Untouched :
    {g : Stage} {m m' : Memory} → Settles g.shared m m' → Untouched g m' → Untouched g m
Settles-Untouched z u = record {
  heap = λ p h. u.heap p (z.heap.more p h);
  globals = λ p h. u.globals p (z.globals.more p h);
}

set_byte-Untouched :
    {g : Stage} {m : Memory} (l : Location) (v : ℕ)
    → Untouched g (set_byte g.shared l v m)
    → Untouched g m
unfolding set_byte
set_byte-Untouched (heap_at o) v u = record { heap = u.heap; globals = u.globals }
set_byte-Untouched (globals_at o) v u = record { heap = u.heap; globals = u.globals }

pub starts-FollowsAmid : (p : Program) (g : Stage) (m : Memory) → Started m → FollowsAmid p g m p
starts-FollowsAmid p g m t =
    let w = starts-Follows p g.shared m t in record { tracked = w.tracked; follows = λ clear. w }

pub loads-FollowsAmid :
    {p : Program} {g : Stage} {m m' : Memory} (l : Location) {k : ℕ → Program}
    → FollowsAmid p g m (load l k)
    → Inside m l
    → settle 3 allows_read g.shared (address m l) m ≡ some m'
    → FollowsAmid p g m' (k (byte_at g.shared m' l))
loads-FollowsAmid l w h e =
    let (z, open_now) = settled allows_read l w.tracked h e in
    record {
      tracked = z.tracked;
      follows = λ clear.
          loads-Follows (Settles-Follows (w.follows (Settles-Untouched z clear)) z) open_now;
    }

pub stores-FollowsAmid :
    {p : Program} {g : Stage} {m m' : Memory} (l : Location) (v : ℕ) {k : Program}
    → FollowsAmid p g m (store l v k)
    → Inside m l
    → settle 3 allows_write g.shared (address m l) m ≡ some m'
    → FollowsAmid p g (set_byte g.shared l v m') k
stores-FollowsAmid {m'} l v w h e =
    let (z, open_now) = settled allows_write l w.tracked h e in
    let writes = writable (access_of m' l) open_now in
    record {
      tracked = set_byte-Tracked l v z.tracked writes;
      follows = λ clear.
          stores-Follows
            (Settles-Follows (w.follows (Settles-Untouched z (set_byte-Untouched l v clear))) z)
            writes;
    }

RunsAmid-FollowsAmid :
    {p : Program} {m₀ : Memory} {g : Stage} {m : Memory} {k : Program}
    → Started m₀
    → RunsAmid p m₀ g m k
    → FollowsAmid p g m k
RunsAmid-FollowsAmid {p} {m₀} b (starts g) = starts-FollowsAmid p g m₀ b
RunsAmid-FollowsAmid b (loads {l} m' r h e) = loads-FollowsAmid l (RunsAmid-FollowsAmid b r) h e
RunsAmid-FollowsAmid b (stores {l} {v} m' r h e) =
    stores-FollowsAmid l v (RunsAmid-FollowsAmid b r) h e
RunsAmid-FollowsAmid b (others g' r e) = others-FollowsAmid (RunsAmid-FollowsAmid b r) e

-- Serializability, with commits taken apart. Let a transaction begin with its regions apart, all pages
-- closed and nothing recorded and run as `p` to its end, its loads and stores interleaved in any way
-- with the single writes of other processes' commits, which may leave pages half written under an old
-- version for any time. If `tryToCommit`, called with both locks free and no page under way, then
-- succeeds, the shared memory of heap and globals is what `p` makes of it when it is run alone, from
-- the memory just before the commit.
pub commit-run_amid :
    {p : Program} {m₀ : Memory} {g : Stage} {s' : Shared} {m m' : Memory}
    → Started m₀
    → RunsAmid p m₀ g m finish
    → ((q : ℕ) → g.heap q ≡ false)
    → ((q : ℕ) → g.globals q ≡ false)
    → Free g.shared
    → try_to_commit g.shared m ≡ ok (true, s', m')
    → image s' ≡ run p (image g.shared)
commit-run_amid {g} {m} b r none_heap none_globals f e =
    let w = RunsAmid-FollowsAmid b r in
    let clear : Untouched g m = record {
      heap = λ q h. none_heap q;
      globals = λ q h. none_globals q;
    } in
    Follows-commit (w.follows clear) f e
