-- ===== src/Memory/Commits.antt =====
-- `tryToCommit` of src/include/xmemory.h on regions as a running transaction leaves them.
use grace.Prelude.{ℕ, ◌≡◌, refl, ap, sym, ◌↔◌, Bool, true, false, List, arith, if◌then◌else◌}
use grace.Result.{ok}
use grace.Persist.Region.{Store, Region, version_array_length, transient}
use grace.Persist.Commit.{consistent_loop, update_pages}
use grace.Persist.Isolation.{Tracks, AllCurrent, consistent-AllCurrent}
use grace.Persist.Publish.{Published, commit-Published}
use grace.Memory.{
  Shared, Memory, lock, unlock, consistent, commit_both, is_consistent, try_to_commit,
}
use grace.Memory.Tracking.{Tracked}

abbrev pub locked_store : Store → Store
locked_store s = record s { held = true }

abbrev pub locked_region : Region → Region
locked_region r = record r { is_locked = true }

abbrev pub lock_both : Shared → Shared
lock_both s = record { heap = locked_store s.heap; globals = locked_store s.globals }

abbrev pub own_both : Memory → Memory
own_both m = record m { heap = locked_region m.heap; globals = locked_region m.globals }

-- No process holds either lock.
pub record Free (s : Shared) : Type 0 where
  pub heap : s.heap.held ≡ false
  pub globals : s.globals.held ≡ false

lock_lem : (s : Shared) (m : Memory) → Free s → lock s m ≡ ok (lock_both s, own_both m)
unfolding lock
lock_lem s m f = rw (f.heap, f.globals)

Tracks-locked : {s : Store} {r : Region} → Tracks s r → Tracks (locked_store s) (locked_region r)
unfolding version_array_length
Tracks-locked t = record {
  private = t.private;
  open_read = t.open_read;
  write_dirty = t.write_dirty;
  copied_dirty = t.copied_dirty;
  dirty_read = t.dirty_read;
  numbered = t.numbered;
  not_newer = t.not_newer;
  inside = t.inside;
}

-- Whether the check of the versions passes.
abbrev pub passes : Shared → Memory → Bool
passes s m =
    if consistent_loop s.heap m.heap m.heap.read
    then consistent_loop s.globals m.globals m.globals.read
    else false

consistent_lem :
    (s : Shared) (m : Memory)
    → consistent (lock_both s) (own_both m) ≡ ok (passes (lock_both s) (own_both m))
unfolding consistent
consistent_lem s m = ground arith

-- The check of the versions decides whether all are current.
pub passes-AllCurrent :
    {s : Shared} {m : Memory}
    → Tracked s m
    → (passes (lock_both s) (own_both m) ≡ true)
      ↔ (AllCurrent s.heap m.heap × AllCurrent s.globals m.globals)
passes-AllCurrent {s} {m} t = (there, back)
  where
    heap_check :
        (consistent_loop (locked_store s.heap) (locked_region m.heap) m.heap.read ≡ true)
        ↔ AllCurrent s.heap m.heap
    heap_check = consistent-AllCurrent (Tracks-locked t.heap)

    globals_check :
        (consistent_loop (locked_store s.globals) (locked_region m.globals) m.globals.read ≡ true)
        ↔ AllCurrent s.globals m.globals
    globals_check = consistent-AllCurrent (Tracks-locked t.globals)

    there :
        passes (lock_both s) (own_both m) ≡ true
        → AllCurrent s.heap m.heap × AllCurrent s.globals m.globals
    there e = (heap_check.0 (ground arith), globals_check.0 (ground arith))

    back :
        AllCurrent s.heap m.heap × AllCurrent s.globals m.globals
        → passes (lock_both s) (own_both m) ≡ true
    back c = rw (heap_check.1 c.0, globals_check.1 c.1)

-- The process's own state after a commit that went through.
abbrev pub committed_region : Region → Region
committed_region r = record (update_pages r.dirtied (locked_region r)) { is_locked = false }

abbrev pub committed : Memory → Memory
committed m = record m { heap = committed_region m.heap; globals = committed_region m.globals }

-- The state of the files and of the process after `tryToCommit`.
pub record Commits (s : Shared) (m : Memory) (s' : Shared) : Type 0 where
  pub result : try_to_commit s m ≡ ok (true, s', committed m)
  pub heap : Published s.heap m.heap m.heap.dirtied s'.heap
  pub globals : Published s.globals m.globals m.globals.dirtied s'.globals

abbrev pub released : Memory → Memory
released m = record m {
  heap = record m.heap { is_locked = false };
  globals = record m.globals { is_locked = false };
}

-- The published files with the lock given back.
Published-released :
    {s h : Store} {r : Region} (l : List ℕ)
    → s.held ≡ false
    → Published (locked_store s) (locked_region r) l h
    → Published s r l (record h { held = false })
unfolding transient
Published-released l free w = record { bytes = w.bytes; numbers = w.numbers; same_lock = sym free }

pub try_to_commit-current :
    {s : Shared} {m : Memory}
    → Tracked s m
    → Free s
    → passes (lock_both s) (own_both m) ≡ true
    → (s' : Shared) × Commits s m s'
unfolding try_to_commit commit_both unlock
try_to_commit-current {s} {m} t f e =
    let (hs, he, hw) = commit-Published (Tracks-locked t.heap) refl in
    let (gs, ge, gw) = commit-Published (Tracks-locked t.globals) refl in
    (
      record { heap = record hs { held = false }; globals = record gs { held = false } },
      record {
        result = rw (lock_lem s m f, consistent_lem s m, e, he, ge);
        heap = Published-released m.heap.dirtied f.heap hw;
        globals = Published-released m.globals.dirtied f.globals gw;
      },
    )

pub try_to_commit-stale :
    (s : Shared) (m : Memory)
    → Free s
    → passes (lock_both s) (own_both m) ≡ false
    → try_to_commit s m ≡ ok (false, s, released m)
unfolding try_to_commit unlock
try_to_commit-stale s m f e =
    rw (lock_lem s m f, consistent_lem s m, e)
      (λ i. ok (
        false,
        record {
          heap = record s.heap { held = sym f.heap i };
          globals = record s.globals { held = sym f.globals i };
        },
        released m,
      ))

unlock_lem :
    (s : Shared) (m : Memory) → Free s → unlock (lock_both s) (own_both m) ≡ (s, released m)
unfolding unlock
unlock_lem s m f = λ i. (
  record {
    heap = record s.heap { held = sym f.heap i };
    globals = record s.globals { held = sym f.globals i };
  },
  released m,
)

pub is_consistent_lem :
    (s : Shared) (m : Memory)
    → Free s
    → is_consistent s m ≡ ok (passes (lock_both s) (own_both m), s, released m)
unfolding is_consistent
is_consistent_lem s m f =
    rw (lock_lem s m f, consistent_lem s m)
      (ap (λ x. ok (passes (lock_both s) (own_both m), x.0, x.1)) (unlock_lem s m f))
