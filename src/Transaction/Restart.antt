-- ===== src/Transaction/Restart.antt =====
-- How a transaction begins after a rollback, and how after a commit (src/include/xmemory.h and
-- xpersist.h).
use grace.Prelude.{ℕ, ◌/◌, ◌<◌, ◌≡◌, refl, ap, subst, ◌∙◌, true, false, [], arith, some}
use grace.Defines.{page_size}
use grace.Result.{ok}
use grace.Persist.PageSet.{has}
use grace.Persist.Region.{Store, Region, Access}
use grace.Persist.Region
use grace.Persist.Commit.{update_pages}
use grace.Persist.Publish.{Reset, update_pages-Reset}
use grace.Memory.{Shared, Memory, try_to_commit, begin, abort}
use grace.Memory.Layout.{Layout}
use grace.Memory.Instruction.{heap_at, address, Inside, settle, allows_read}
use grace.Memory.Progress.{access_at-address, access_of}
use grace.Memory.Settling.{settle_open}
use grace.Memory.Commits.{Free, committed, locked_region}
use grace.Transaction.{Program, finish, Fresh, Started, Runs}
use grace.Transaction.Steps.{Runs-Follows}
use grace.Transaction.Serial.{commits_of}

restart-Fresh : (r : Region) → Fresh (Region.begin (Region.abort r))
unfolding Region.begin Region.abort
restart-Fresh r = record {
  private = refl;
  closed = λ p. refl;
  clean = λ p. refl;
  no_reads = refl;
  no_writes = refl;
}

-- After a rollback the next attempt finds every page closed, no private copy, and empty page sets,
-- whatever the failed attempt had done.
pub begin-abort-Started : (m : Memory) → Layout m → Started (begin (abort m))
unfolding begin abort
begin-abort-Started m y = record {
  layout = record {
    heap_aligned = y.heap_aligned;
    globals_aligned = y.globals_aligned;
    heap_pages = y.heap_pages;
    globals_pages = y.globals_pages;
    apart = y.apart;
  };
  heap = restart-Fresh m.heap;
  globals = restart-Fresh m.globals;
  no_pages = refl;
}

committed-Layout : (m : Memory) → Layout m → Layout (begin (committed m))
unfolding begin
committed-Layout m y = record {
  heap_aligned = rw h.base y.heap_aligned;
  globals_aligned = rw g.base y.globals_aligned;
  heap_pages = rw h.size y.heap_pages;
  globals_pages = rw g.size y.globals_pages;
  apart = rw (h.base, h.size, g.base, g.size) y.apart;
}
  where
    h :
        Reset
          (locked_region m.heap)
          m.heap.dirtied
          (update_pages m.heap.dirtied (locked_region m.heap))
    h = update_pages-Reset (locked_region m.heap) m.heap.dirtied

    g :
        Reset
          (locked_region m.globals)
          m.globals.dirtied
          (update_pages m.globals.dirtied (locked_region m.globals))
    g = update_pages-Reset (locked_region m.globals) m.globals.dirtied

committed_access :
    (m : Memory) (o : ℕ)
    → o < m.heap.size
    → m.heap.access (o / page_size) ≡ Access.read_only
    → has (o / page_size) m.heap.dirtied ≡ false
    → (allows_read (access_of (begin (committed m)) (heap_at o)) ≡ true)
      × Inside (begin (committed m)) (heap_at o)
      × ((begin (committed m)).heap.read ≡ [])
unfolding begin
committed_access m o h a d =
    (ground (arith, w.access (o / page_size), a, d), ground (arith, w.size), refl)
  where
    w :
        Reset
          (locked_region m.heap)
          m.heap.dirtied
          (update_pages m.heap.dirtied (locked_region m.heap))
    w = update_pages-Reset (locked_region m.heap) m.heap.dirtied

-- After a commit of a transaction that began with its regions apart, all pages closed and nothing
-- recorded, a page of the heap that was read and not written stays open to reads in the next
-- transaction, although that has recorded nothing: a load there goes through at once, and the page is
-- not among the pages read.
pub read_untracked :
    {p : Program} {m₀ : Memory} {s s' : Shared} {m m' : Memory} (o : ℕ)
    → Started m₀
    → Runs p m₀ s m finish
    → Free s
    → try_to_commit s m ≡ ok (true, s', m')
    → o < m.heap.size
    → m.heap.access (o / page_size) ≡ Access.read_only
    → has (o / page_size) m.heap.dirtied ≡ false
    → (settle 3 allows_read s' (address (begin m') (heap_at o)) (begin m') ≡ some (begin m'))
      × ((begin m').heap.read ≡ [])
read_untracked {s'} {m} {m'} o b r f e h a d =
    let t = (Runs-Follows b r).tracked in
    let (z, _, _) = commits_of t f e in
    let same : committed m ≡ m' = cc z.result in
    subst
      (λ n.
        (settle 3 allows_read s' (address (begin n) (heap_at o)) (begin n) ≡ some (begin n))
        × ((begin n).heap.read ≡ []))
      same
      (let n = begin (committed m) in
        let (granted, inside, empty) = committed_access m o h a d in
        (
          settle_open 2 allows_read s' (address n (heap_at o)) n (
              ap allows_read (access_at-address n (heap_at o) (committed-Layout m t.layout) inside)
              ∙ granted),
          empty,
        ))
