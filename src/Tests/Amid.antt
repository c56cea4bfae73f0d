-- ===== src/Tests/Amid.antt =====
-- The transaction of Tests.Transaction, while another process writes a page of the globals; and the writes
-- of a commit of one page.
use grace.Prelude.{◌+◌, ◌/◌, ◌≡◌, refl, true, [], ◌∷◌, arith, ◌==◌, if◌then◌else◌}
use grace.Result.{ok}
use grace.Defines.{page_size, page_align_down}
use grace.Persist.Mapping.{view, poke}
use grace.Persist.PageSet.{insert, has}
use grace.Persist.Region.{
  Store, Region, Access, in_range, protect, transient, local_version, set_local_version,
  set_transient, version_array_length, int_mod,
}
use grace.Persist.Region
use grace.Persist.Commit.{commit, commit_pages, commit_page, update_pages}
use grace.Persist.Isolation.{Tracks}
use grace.Persist.Writing.{none, Writes, Moves}
use grace.Persist.Writing.Whole.{commit-Writes}
use grace.Memory.{
  Shared, Memory, handle_access, page_seen, add_page, protect_page, record_read, record_write,
}
use grace.Memory.Instruction.{heap_at, settle, access_at, byte_at, set_byte}
use grace.Transaction.{finish, store, image, run}
use grace.Transaction.Amid.{
  Stage, StageMoves, RunsAmid, starts, loads, stores, others, commit-run_amid,
}
use grace.Tests.Transaction.{
  shared₀, shared₁, memory₀, started, copy_next, at_end, free₁, commit_step,
}

abbrev stage : Shared → Stage
stage s = record { shared = s; heap = none; globals = none }

-- The byte is written, and its page still has the old version.
abbrev half : Stage
half = record {
  shared = record shared₀ { globals = record shared₀.globals { memory = shared₁.globals.memory } };
  heap = none;
  globals = λ p. p == 0;
}

still : (s : Store) → Moves s none s none
still s = record {
  grows = λ p. omega arith;
  settled_before = λ p e h. refl;
  same_bytes = λ i e h. refl;
}

writes_byte : StageMoves (stage shared₀) half
writes_byte = record {
  heap = still shared₀.heap;
  globals = record {
    grows = λ p. omega arith;
    settled_before = λ p e h. refl;
    same_bytes = λ i e h. ground arith;
  };
}

numbers_page : StageMoves half (stage shared₁)
numbers_page = record {
  heap = still shared₀.heap;
  globals = record {
    grows = λ p. ground arith;
    settled_before = λ p e h. ground arith;
    same_bytes = λ i e h. refl;
  };
}

abbrev after_load : Memory
after_load = handle_access shared₀ 0x10005 memory₀

abbrev after_store : Memory
after_store = handle_access shared₁ 0x11004 (handle_access shared₁ 0x11004 after_load)

finished : RunsAmid copy_next memory₀ (stage shared₁) at_end finish
unfolding settle access_at handle_access page_align_down page_seen add_page protect_page record_read
    record_write Region.record_read Region.record_write protect in_range has insert byte_at
    set_local_version set_byte set_transient poke view transient
finished =
    stores {l = heap_at 4100} {v = 6} after_store
      (others (stage shared₁)
        (others half
          (loads {l = heap_at 5} {k = λ x. store (heap_at 4100) (x + 1) finish} after_load
            (starts (stage shared₀)) (omega arith) refl)
          writes_byte)
        numbers_page)
      (omega arith) refl

commit-run_amid_example : image commit_step.0 ≡ run copy_next (image shared₁)
commit-run_amid_example =
    commit-run_amid started finished (λ q. refl) (λ q. refl) free₁ commit_step.1.result

-- A region that has read and written its second page.
abbrev written : Region
written = record {
  base = 0x10000;
  size = 8192;
  start_size = 0;
  is_locked = true;
  read = 1 ∷ [];
  dirtied = 1 ∷ [];
  is_private = true;
  access = λ q. if q == 1 then Access.read_write else Access.closed;
  frames = record { copied = λ p. p == 1; items = λ i. 7 };
  local_versions = record { copied = λ p. p == 0; items = λ p. p };
}

written-Tracks : Tracks shared₀.heap written
unfolding has version_array_length
written-Tracks = record {
  private = refl;
  open_read = λ p. ground arith;
  write_dirty = λ p e. ground arith;
  copied_dirty = λ p e. ground arith;
  dirty_read = λ p e. e;
  numbered = λ p e. ground arith;
  not_newer = λ p e. omega arith;
  inside = λ p e. ground arith;
}

abbrev after_commit : Store
after_commit = record shared₀.heap {
  memory =
      λ i. if i / page_size == 1 then transient shared₀.heap written i else shared₀.heap.memory i;
  versions = λ q. if q == 1 then 2 else q;
}

committed : commit shared₀.heap written ≡ ok (after_commit, update_pages (1 ∷ []) written)
unfolding commit commit_pages commit_page local_version version_array_length
committed = refl

commit-Writes_example : Writes written shared₀.heap none after_commit none
unfolding has
commit-Writes_example =
    commit-Writes shared₀.heap written written-Tracks (λ p h. refl) (λ p h. ground arith) (tt, tt)
      committed
