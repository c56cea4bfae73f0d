-- ===== src/Tests/Overlap.antt =====
-- Process 0 copies a byte and commits, while process 1 has begun the same.
use grace.Prelude.{
  ℕ, ◌+◌, ◌/◌, ◌≡◌, refl, true, false, List, [], ◌∷◌, ◌++◌, ◌==◌, if◌then◌else◌, arith,
}
use grace.Result.{ok}
use grace.Defines.{page_size, page_align_down}
use grace.Persist.Mapping.{view, poke}
use grace.Persist.PageSet.{insert, has}
use grace.Persist.Region.{
  Store, Region, protect, in_range, transient, local_version, set_local_version, set_transient,
  version_array_length,
}
use grace.Persist.Region
use grace.Persist.Commit
use grace.Persist.Commit.{commit_page, commit_pages, update_pages, consistent_loop}
use grace.Persist.Isolation.{Tracks}
use grace.Persist.Writing.{Pages, none, Writes, nothing, and_then}
use grace.Persist.Writing.Whole.{commit-Writes}
use grace.Memory.Commits.{locked_store, locked_region}
use grace.Memory.{
  Shared, Memory, handle_access, page_seen, add_page, protect_page, record_read, record_write,
}
use grace.Memory
use grace.Memory.Instruction.{settle, access_at, byte_at, set_byte, heap_at}
use grace.Transaction.{Program, finish, store, image}
use grace.System.{run_all}
use grace.Overlap.{
  Control, idle, busy, has_heap, has_both, writing_heap, writing_globals, answered, heap_freed,
  Processes, at, set_heap, set_globals, Step, begins, loads, stores, locks_heap, locks_globals,
  accepts, writes_heap, heap_done, globals_done, frees_heap, frees_globals, Reach, here, next,
  BeginsClosed, AllBeginClosed, start,
}
use grace.Locking.{put}
use grace.Overlap.Holding.{Quiet}
use grace.Overlap.Serial.{Reach-run_all}
use grace.Tests.Transaction.{shared₁, memory₀, started, copy_next, free₁}

abbrev after_load : Memory
after_load = handle_access shared₁ 0x10005 memory₀

abbrev after_store : Memory
after_store = handle_access shared₁ 0x11004 (handle_access shared₁ 0x11004 after_load)

abbrev first : Processes
first = start shared₁ (λ i. memory₀)

abbrev begun : Processes
begun = at (at first 0 (busy copy_next memory₀ copy_next)) 1 (busy copy_next memory₀ copy_next)

-- A run in which each transaction begins with all pages closed.
abbrev Ran : Processes → Type 0
Ran σ = (r : Reach first σ) × AllBeginClosed r

step_on : {σ τ : Processes} (i : ℕ) → Ran σ → (m : Step i σ τ) → BeginsClosed m → Ran τ
step_on i (r, b) m c = (next i r m, (b, c))

both_begin : Ran begun
both_begin =
    step_on 1 (step_on 0 (here, tt) (begins copy_next memory₀ refl) started)
      (begins copy_next memory₀ refl) started

abbrev loaded : Processes
loaded = at begun 0 (busy copy_next after_load (store (heap_at 4100) 6 finish))

abbrev finished : Memory
finished = set_byte shared₁ (heap_at 4100) 6 after_store

abbrev at_finish : Processes
at_finish = at loaded 0 (busy copy_next finished finish)

has_stored : Ran at_finish
unfolding settle access_at byte_at transient handle_access page_align_down page_seen add_page
    protect_page record_read record_write Region.record_read Region.record_write protect in_range
    has insert set_local_version set_byte set_transient poke view
has_stored =
    step_on 0
      (step_on 0 both_begin
        (loads copy_next memory₀ after_load (heap_at 5) (λ x. store (heap_at 4100) (x + 1) finish)
          refl (omega arith) refl)
        tt)
      (stores copy_next finish after_load after_store (heap_at 4100) 6 refl (omega arith) refl) tt

abbrev owns_heap : Memory
owns_heap = record finished { heap = locked_region finished.heap }

abbrev owns_both : Memory
owns_both = record owns_heap { globals = locked_region owns_heap.globals }

abbrev heap_locked : Processes
heap_locked = record (at at_finish 0 (has_heap copy_next owns_heap)) {
  stage = set_heap (locked_store shared₁.heap) at_finish.stage;
}

abbrev both_locked : Processes
both_locked = record (at heap_locked 0 (has_both copy_next owns_both)) {
  stage = set_globals (locked_store shared₁.globals) heap_locked.stage;
}

touched : Memory.is_nop finished ≡ false
unfolding Memory.is_nop Region.nop handle_access page_align_down page_seen add_page protect_page
    record_read record_write Region.record_read Region.record_write protect in_range has insert
    set_local_version set_byte set_transient poke view
touched = refl

has_locks : Ran both_locked
unfolding Commit.lock
has_locks =
    step_on 0
      (step_on 0 has_stored
        (locks_heap copy_next finished (locked_store shared₁.heap) (locked_region finished.heap)
          refl touched refl)
        tt)
      (locks_globals copy_next owns_heap (locked_store shared₁.globals)
        (locked_region owns_heap.globals) refl refl)
      tt

passes : Memory.consistent both_locked.stage.shared owns_both ≡ ok true
unfolding Memory.consistent Commit.consistent consistent_loop local_version handle_access
    page_align_down page_seen add_page protect_page record_read record_write Region.record_read
    Region.record_write protect in_range has insert set_local_version set_byte set_transient poke
    view
passes = refl

-- The heap after the commit.
abbrev new_heap : Store
new_heap = record (locked_store shared₁.heap) {
  memory = λ i.
      if i / page_size == 1
      then transient (locked_store shared₁.heap) owns_both.heap i
      else shared₁.heap.memory i;
  versions = λ q. if q == 1 then 2 else shared₁.heap.versions q;
}

heap_commit :
    Commit.commit (locked_store shared₁.heap) owns_both.heap
    ≡ ok (new_heap, update_pages (1 ∷ []) owns_both.heap)
unfolding Commit.commit commit_pages commit_page local_version version_array_length handle_access
    page_align_down page_seen add_page protect_page record_read record_write Region.record_read
    Region.record_write protect in_range has insert set_local_version set_byte set_transient poke
    view
heap_commit = refl

abbrev heap_done_memory : Memory
heap_done_memory = record owns_both { heap = update_pages (1 ∷ []) owns_both.heap }

nothing_in_globals :
    Commit.commit (locked_store shared₁.globals) owns_both.globals
    ≡ ok (locked_store shared₁.globals, owns_both.globals)
unfolding Commit.commit commit_pages update_pages handle_access page_align_down page_seen add_page
    protect_page record_read record_write Region.record_read Region.record_write protect in_range
    has insert set_local_version set_byte set_transient poke view
nothing_in_globals = refl

tracked : Tracks (locked_store shared₁.heap) owns_both.heap
unfolding has version_array_length handle_access page_align_down page_seen add_page protect_page
    record_read record_write Region.record_read Region.record_write protect in_range insert
    set_local_version set_byte set_transient poke view
tracked = record {
  private = refl;
  open_read = λ p. ground arith;
  write_dirty = λ p e. ground arith;
  copied_dirty = λ p e. ground arith;
  dirty_read = λ p e. ground arith;
  numbered = λ p e. ground arith;
  not_newer = λ p e. ground arith;
  inside = λ p e. ground arith;
}

writes : Writes owns_both.heap (locked_store shared₁.heap) none new_heap none
unfolding local_version version_array_length handle_access page_align_down page_seen add_page
    protect_page record_read record_write Region.record_read Region.record_write protect in_range
    has insert set_local_version set_byte set_transient poke view
writes =
    commit-Writes (locked_store shared₁.heap) owns_both.heap tracked (λ p h. ground arith)
      (λ p h. ground arith) (tt, tt) heap_commit

-- The writes of a heap's commit as steps of process 0.
written :
    {p : Program} {m : Memory} {from s : Store} {u : Pages} {s' : Store} {u' : Pages}
    → Writes m.heap s u s' u'
    → (control : ℕ → Control) (g : Store) (w : Pages) (l : List Program)
    → control 0 ≡ writing_heap p m from
    → Ran (record {
      stage = record { shared = record { heap = s; globals = g }; heap = u; globals = w };
      control = control;
      history = l;
    })
    → (control' : ℕ → Control) × (control' 0 ≡ writing_heap p m from)
      × Ran (record {
        stage = record { shared = record { heap = s'; globals = g }; heap = u'; globals = w };
        control = control';
        history = l;
      })
written nothing control g w l e r = (control, e, r)
written {p} {m} {from} (and_then {s'} {s''} {u'} {u''} before one moves) control g w l e r =
    let (control', e', r') = written before control g w l e r in
    (
      put 0 (writing_heap p m from) control',
      refl,
      step_on 0 r' (writes_heap p m from s'' u'' e' one moves) tt,
    )

abbrev accepted : Processes
accepted = at both_locked 0 (writing_heap copy_next owns_both (locked_store shared₁.heap))

heap_written :
    (control : ℕ → Control) × (control 0
      ≡ writing_heap copy_next owns_both (locked_store shared₁.heap))
    × Ran (record {
      stage = record {
        shared = record { heap = new_heap; globals = locked_store shared₁.globals };
        heap = none;
        globals = none;
      };
      control = control;
      history = [];
    })
heap_written =
    written writes accepted.control (locked_store shared₁.globals) none [] refl
      (step_on 0 has_locks (accepts copy_next owns_both refl passes) tt)

abbrev heap_past : Processes
heap_past =
    at
      (record {
        stage = record {
          shared = record { heap = new_heap; globals = locked_store shared₁.globals };
          heap = none;
          globals = none;
        };
        control = heap_written.0;
        history = [];
      })
      0 (writing_globals copy_next heap_done_memory (locked_store shared₁.globals))

abbrev committed : Processes
committed = record (at heap_past 0 (answered true heap_done_memory)) {
  history = [] ++ (copy_next ∷ []);
}

has_committed : Ran committed
unfolding update_pages
has_committed =
    step_on 0
      (step_on 0 heap_written.2
        (heap_done copy_next owns_both (locked_store shared₁.heap)
          (update_pages (1 ∷ []) owns_both.heap) heap_written.1 (λ q. refl) heap_commit)
        tt)
      (globals_done copy_next heap_done_memory (locked_store shared₁.globals) owns_both.globals refl
        (λ q. refl) nothing_in_globals)
      tt

abbrev frees_one : Memory
frees_one = record heap_done_memory { heap = record heap_done_memory.heap { is_locked = false } }

abbrev heap_free : Processes
heap_free = record (at committed 0 (heap_freed true frees_one)) {
  stage = set_heap (record new_heap { held = false }) committed.stage;
}

abbrev frees_both : Memory
frees_both = record frees_one { globals = record frees_one.globals { is_locked = false } }

abbrev all_free : Processes
all_free = record (at heap_free 0 (idle (Memory.begin frees_both))) {
  stage = set_globals (record (locked_store shared₁.globals) { held = false }) heap_free.stage;
}

has_finished : Ran all_free
unfolding Commit.unlock
has_finished =
    step_on 0 (step_on 0 has_committed (frees_heap true heap_done_memory refl) tt)
      (frees_globals true frees_one refl) tt

Reach-run_all_example :
    (image all_free.stage.shared ≡ run_all (copy_next ∷ []) (image shared₁)) × Quiet all_free.stage
Reach-run_all_example =
    Reach-run_all shared₁ (λ i. memory₀) free₁ has_finished.0 has_finished.1 refl
