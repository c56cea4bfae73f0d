-- ===== src/Overlap/Follows.antt =====
-- What is known of a process that waits for the locks, or has them, before the check
-- (src/include/xmemory.h).
use grace.Prelude.{ℕ, ◌≡◌, refl, sym, ◌∙◌, subst, fun_ext, Bool, true, false, arith}
use grace.Result.{Result, ok, ◌>>=◌, >>-eq-ok}
use grace.Persist.Region.{Store, Region, version_array_length}
use grace.Persist.Commit.{consistent_loop, commit, commit_pages, update_pages}
use grace.Persist.Commit
use grace.Persist.Isolation.{Tracks, AllCurrent, consistent-AllCurrent}
use grace.Persist.Publish.{Published, commit-Published}
use grace.Persist.Interference.{Published-bytes}
use grace.Memory.{Shared, Memory, consistent}
use grace.Memory.Tracking.{Tracked}
use grace.Transaction.{Program, finish, image, run, overlay}
use grace.Transaction.Amid.{Stage, Untouched, FollowsAmid}

abbrev pub flag : Bool → Region → Region
flag b r = record r { is_locked = b }

-- The process's own note that it has a lock changes nothing.
Tracks-flag : {s : Store} {r : Region} (b : Bool) → Tracks s r → Tracks s (flag b r)
unfolding version_array_length
Tracks-flag b t = record {
  private = t.private;
  open_read = t.open_read;
  write_dirty = t.write_dirty;
  copied_dirty = t.copied_dirty;
  dirty_read = t.dirty_read;
  numbered = t.numbered;
  not_newer = t.not_newer;
  inside = t.inside;
}

abbrev pub flags : Bool → Bool → Memory → Memory
flags a b m = record m { heap = flag a m.heap; globals = flag b m.globals }

Tracked-flags : {s : Shared} {m : Memory} (a b : Bool) → Tracked s m → Tracked s (flags a b m)
Tracked-flags a b t = record {
  layout = record {
    heap_aligned = t.layout.heap_aligned;
    globals_aligned = t.layout.globals_aligned;
    heap_pages = t.layout.heap_pages;
    globals_pages = t.layout.globals_pages;
    apart = t.layout.apart;
  };
  heap = Tracks-flag a t.heap;
  globals = Tracks-flag b t.globals;
  heap_seen = t.heap_seen;
  globals_seen = t.globals_seen;
}

pub FollowsAmid-flags :
    {p : Program} {g : Stage} {m : Memory} {k : Program} (a b : Bool)
    → FollowsAmid p g m k
    → FollowsAmid p g (flags a b m) k
FollowsAmid-flags a b w = record {
  tracked = Tracked-flags a b w.tracked;
  follows = λ clear. record {
    tracked = Tracked-flags a b w.tracked;
    same = λ f v.
        (w.follows (record { heap = clear.heap; globals = clear.globals })).same f (record {
          heap_current = v.heap_current;
          globals_current = v.globals_current;
          heap_agrees = v.heap_agrees;
          globals_agrees = v.globals_agrees;
        });
  };
}

-- What the check says.
pub consistent-AllCurrent_both :
    {s : Shared} {m : Memory}
    → Tracked s m
    → consistent s m ≡ ok true
    → AllCurrent s.heap m.heap × AllCurrent s.globals m.globals
unfolding consistent Commit.consistent
consistent-AllCurrent_both {s} {m} t e = (
  (consistent-AllCurrent t.heap).0 (ground arith),
  (consistent-AllCurrent t.globals).0 (ground arith),
)

commit-Published_of :
    {s s' : Store} {r r' : Region}
    → Tracks s r
    → commit s r ≡ ok (s', r')
    → Published s r r.dirtied s'
unfolding commit
commit-Published_of {s} {s'} {r} {r'} t e =
    let pages = commit_pages s r r.dirtied in
    let last : Store → Result (Store × Region) = λ x. ok (x, update_pages r.dirtied r) in
    let (locked, _) = >>-eq-ok r.is_locked (pages >>= last) e in
    let (s₁, done, w) = commit-Published t locked in
    let same : s₁ ≡ s' = cc (done, e) in subst (λ x. Published s r r.dirtied x) same w

-- The bytes that the two commits leave after a check that passed, whatever they return.
pub commits-run :
    {p : Program} {g : Stage} {m : Memory}
    → FollowsAmid p g m finish
    → ((q : ℕ) → g.heap q ≡ false)
    → ((q : ℕ) → g.globals q ≡ false)
    → consistent g.shared m ≡ ok true
    → (h s : Store) (r r' : Region) → commit g.shared.heap m.heap ≡ ok (h, r)
    → commit g.shared.globals m.globals ≡ ok (s, r')
    → image (record { heap = h; globals = s }) ≡ run p (image g.shared)
unfolding run
commits-run {p} {g} {m} w none_heap none_globals passed h s r r' e f =
    let (heap_current, globals_current) = consistent-AllCurrent_both w.tracked passed in
    let heap = Published-bytes w.tracked.heap (commit-Published_of w.tracked.heap e) in
    let globals = Published-bytes w.tracked.globals (commit-Published_of w.tracked.globals f) in
    let seen : image (record { heap = h; globals = s }) ≡ overlay m (image g.shared) =
      λ i. record { heap = fun_ext heap i; globals = fun_ext globals i } in
    let clear : Untouched g m = record {
      heap = λ q x. none_heap q;
      globals = λ q x. none_globals q;
    } in
    seen
    ∙ sym (
        (w.follows clear).same (image g.shared) (record {
          heap_current = heap_current;
          globals_current = globals_current;
          heap_agrees = λ i x. refl;
          globals_agrees = λ i x. refl;
        }))
