-- ===== src/Tests/Transaction.antt =====
-- A transaction that copies a byte of the heap to the next page, while another process commits.
use grace.Prelude.{
  ℕ, ◌+◌, ◌/◌, ◌≡◌, refl, inl, inr, ◌↔◌, Bool, true, false, [], ◌∷◌, subst, some, arith, ◌==◌,
  if◌then◌else◌,
}
use grace.Result.{ok}
use grace.Persist.Mapping.{unmodified, view, poke}
use grace.Persist.PageSet.{insert, has}
use grace.Persist.Region.{
  Store, Region, Access, in_range, protect, transient, local_version, set_local_version,
  set_transient, version_array_length,
}
use grace.Persist.Region
use grace.Persist.Commit.{consistent_loop}
use grace.Persist.Isolation.{AllCurrent}
use grace.Persist.Interference.{NoWrap}
use grace.Defines.{page_size, page_align_down}
use grace.Memory.{
  Shared, Memory, handle_access, page_seen, add_page, protect_page, record_read, record_write,
  try_to_commit,
}
use grace.Memory.Instruction.{
  heap_at, globals_at, address, settle, allows_read, allows_write, access_at, byte_at, set_byte,
}
use grace.Memory.Commits.{
  Free, passes, lock_both, own_both, committed, Commits, try_to_commit-current, try_to_commit-stale,
}
use grace.Transaction.{
  Program, finish, load, store, image, run, Fresh, Started, Interferes, Runs, starts, loads, stores,
  others,
}
use grace.Transaction.Steps.{Runs-Follows}
use grace.Memory.{begin, abort}
use grace.Memory.Progress.{settle_total}
use grace.Transaction.Restart.{begin-abort-Started, read_untracked}
use grace.Transaction.Serial.{commit_decides, commit-Interferes, refused_commit}

abbrev empty_region : ℕ → Region
empty_region base = record {
  base = base;
  size = 8192;
  start_size = 0;
  is_locked = false;
  read = [];
  dirtied = [];
  is_private = true;
  access = λ _. Access.closed;
  frames = unmodified;
  local_versions = unmodified;
}

abbrev files : (ℕ → ℕ) → Store
files bytes = record { memory = bytes; versions = λ p. p; held = false }

abbrev pub shared₀ : Shared
shared₀ = record { heap = files (λ i. i); globals = files (λ i. 0) }

abbrev pub memory₀ : Memory
memory₀ = record { heap = empty_region 0x10000; globals = empty_region 0x20000; pages = [] }

empty_region-Fresh : (base : ℕ) → Fresh (empty_region base)
empty_region-Fresh base = record {
  private = refl;
  closed = λ p. refl;
  clean = λ p. refl;
  no_reads = refl;
  no_writes = refl;
}

pub started : Started memory₀
started = record {
  layout = record {
    heap_aligned = omega arith;
    globals_aligned = omega arith;
    heap_pages = omega arith;
    globals_pages = omega arith;
    apart = inl (omega arith);
  };
  heap = empty_region-Fresh 0x10000;
  globals = empty_region-Fresh 0x20000;
  no_pages = refl;
}

-- heap[4100] = heap[5] + 1
abbrev pub copy_next : Program
copy_next = load (heap_at 5) (λ x. store (heap_at 4100) (x + 1) finish)

-- Another process writes the first byte of the globals.
abbrev pub shared₁ : Shared
shared₁ = record shared₀ {
  globals = record {
    memory = λ i. if i == 0 then 9 else 0;
    versions = λ p. if p == 0 then 1 else p;
    held = false;
  };
}

abbrev after_load : Memory
after_load = handle_access shared₀ 0x10005 memory₀

abbrev after_store : Memory
after_store = handle_access shared₁ 0x11004 (handle_access shared₁ 0x11004 after_load)

other_commit : Interferes shared₀ shared₁
other_commit = record {
  heap = record { page = λ p. inr (refl, λ i e. refl) };
  globals = record { page = λ p. ground arith };
}

abbrev pub at_end : Memory
at_end = set_byte shared₁ (heap_at 4100) 6 after_store

pub finished : Runs copy_next memory₀ shared₁ at_end finish
unfolding settle access_at handle_access page_align_down page_seen add_page protect_page record_read
    record_write Region.record_read Region.record_write protect in_range has insert byte_at
    set_local_version set_byte set_transient poke view transient
finished =
    stores {l = heap_at 4100} {v = 6} after_store
      (others shared₁
        (loads {l = heap_at 5} {k = λ x. store (heap_at 4100) (x + 1) finish} after_load
          (starts shared₀) (omega arith) refl)
        other_commit)
      (omega arith) refl

pub free₁ : Free shared₁
free₁ = record { heap = refl; globals = refl }

check_passes : passes (lock_both shared₁) (own_both at_end) ≡ true
unfolding consistent_loop handle_access page_align_down page_seen add_page protect_page record_read
    record_write Region.record_read Region.record_write protect in_range has insert local_version
    set_local_version set_byte set_transient poke view
check_passes = refl

pub commit_step : (s' : Shared) × Commits shared₁ at_end s'
commit_step = try_to_commit-current (Runs-Follows started finished).tracked free₁ check_passes

copied_byte : (run copy_next (image shared₁)).heap 4100 ≡ 6
unfolding run
copied_byte = refl

commit_decides_example :
    (b : Bool) × (s' : Shared) × (m' : Memory) × (try_to_commit shared₁ at_end ≡ ok (b, s', m'))
    × ((b ≡ true)
        ↔ (AllCurrent shared₁.heap at_end.heap × AllCurrent shared₁.globals at_end.globals))
commit_decides_example = commit_decides started finished free₁

heap_dirtied : at_end.heap.dirtied ≡ 1 ∷ []
unfolding handle_access page_align_down page_seen add_page protect_page record_read record_write
    Region.record_read Region.record_write protect in_range has insert local_version
    set_local_version set_byte set_transient poke view
heap_dirtied = refl

globals_dirtied : at_end.globals.dirtied ≡ []
unfolding handle_access page_align_down page_seen add_page protect_page record_read record_write
    Region.record_read Region.record_write protect in_range has insert local_version
    set_local_version set_byte set_transient poke view
globals_dirtied = refl

pub heap_room : NoWrap shared₁.heap at_end.heap.dirtied
unfolding has
heap_room p h = ground (arith, subst (λ l. has p l ≡ true) heap_dirtied h)

pub globals_room : NoWrap shared₁.globals at_end.globals.dirtied
unfolding has
globals_room p h = ground (arith, subst (λ l. has p l ≡ true) globals_dirtied h)

commit-Interferes_example : Interferes shared₁ commit_step.0 × Free commit_step.0
commit-Interferes_example =
    commit-Interferes started finished free₁ heap_room globals_room commit_step.1.result

-- The page that was read gets a new version before the commit.
abbrev pub shared₂ : Shared
shared₂ = record shared₁ {
  heap = record {
    memory = λ i. if i == 5 then 77 else i;
    versions = λ p. if p == 0 then 1 else p;
    held = false;
  };
}

later_commit : Interferes shared₁ shared₂
later_commit = record {
  heap = record { page = λ p. ground arith };
  globals = record { page = λ p. inr (refl, λ i e. refl) };
}

overtaken : Runs copy_next memory₀ shared₂ at_end finish
overtaken = others shared₂ finished later_commit

pub free₂ : Free shared₂
free₂ = record { heap = refl; globals = refl }

pub check_fails : passes (lock_both shared₂) (own_both at_end) ≡ false
unfolding consistent_loop handle_access page_align_down page_seen add_page protect_page record_read
    record_write Region.record_read Region.record_write protect in_range has insert local_version
    set_local_version set_byte set_transient poke view
check_fails = refl

refused_commit_example : shared₂ ≡ shared₂
refused_commit_example =
    refused_commit started overtaken free₂ (try_to_commit-stale shared₂ at_end free₂ check_fails)

at_start : Runs copy_next memory₀ shared₀ memory₀ copy_next
at_start = starts shared₀

settle_total_example :
    (m' : Memory) × (settle 3 allows_write shared₀ (address memory₀ (globals_at 5000)) memory₀
      ≡ some m')
settle_total_example =
    settle_total allows_write refl shared₀ (globals_at 5000) memory₀
      (Runs-Follows started at_start).tracked (omega arith)

begin-abort-Started_example : Started (begin (abort at_end))
begin-abort-Started_example =
    begin-abort-Started at_end (Runs-Follows started finished).tracked.layout

size_kept : at_end.heap.size ≡ 8192
unfolding handle_access page_align_down page_seen add_page protect_page record_read record_write
    Region.record_read Region.record_write protect in_range has insert local_version
    set_local_version set_byte set_transient poke view
size_kept = refl

page_left_open : at_end.heap.access (5 / page_size) ≡ Access.read_only
unfolding handle_access page_align_down page_seen add_page protect_page record_read record_write
    Region.record_read Region.record_write protect in_range has insert local_version
    set_local_version set_byte set_transient poke view
page_left_open = refl

page_not_written : has (5 / page_size) at_end.heap.dirtied ≡ false
unfolding handle_access page_align_down page_seen add_page protect_page record_read record_write
    Region.record_read Region.record_write protect in_range has insert local_version
    set_local_version set_byte set_transient poke view
page_not_written = refl

read_untracked_example :
    (settle 3 allows_read commit_step.0
        (address (begin (committed at_end)) (heap_at 5))
        (begin (committed at_end))
      ≡ some (begin (committed at_end)))
    × ((begin (committed at_end)).heap.read ≡ [])
read_untracked_example =
    read_untracked 5 started finished free₁ commit_step.1.result (omega (arith, size_kept))
      page_left_open page_not_written
