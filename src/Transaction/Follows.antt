-- ===== src/Transaction/Follows.antt =====
-- Whatever the interleaving, what a transaction has seen and written is what its program does alone,
-- so long as no page that it read got a new version.
use grace.Prelude.{ℕ, ◌/◌, ◌≡◌, ap, sym, fun_ext, ◌∙◌, inl, true, List, [], arith}
use grace.Defines.{page_size}
use grace.Persist.Mapping.{view}
use grace.Persist.PageSet.{has}
use grace.Persist.Region.{Store, Region, Access, transient, set_transient, version_array_length}
use grace.Persist.Isolation.{Tracks, AllCurrent}
use grace.Persist.Interference.{Agrees}
use grace.Memory.{Shared, Memory}
use grace.Memory.Instruction.{Location, heap_at, globals_at, allows_read, byte_at}
use grace.Memory.Layout.{Seen}
use grace.Memory.Tracking.{Tracked, Opens-Agrees}
use grace.Memory.Settling.{Settles}
use grace.Memory.Progress.{access_of}
use grace.Transaction.{Program, load, Image, fetch, run, overlay, Fresh, Started}

-- On every page read, `f` holds the shared bytes, and no page read has a new version.
pub record Valid (s : Shared) (m : Memory) (f : Image) : Type 0 where
  pub heap_current : AllCurrent s.heap m.heap
  pub globals_current : AllCurrent s.globals m.globals
  pub heap_agrees : Agrees s.heap m.heap f.heap
  pub globals_agrees : Agrees s.globals m.globals f.globals

pub record Follows (p : Program) (s : Shared) (m : Memory) (k : Program) : Type 0 where
  pub tracked : Tracked s m
  pub same : (f : Image) → Valid s m f → run p f ≡ run k (overlay m f)

Fresh-Tracks : {s : Store} {r : Region} → Fresh r → Tracks s r
unfolding has
Fresh-Tracks {s} {r} h = record {
  private = h.private;
  open_read = λ p. inl (h.closed p);
  write_dirty = λ p e. ground (arith, h.closed p);
  copied_dirty = λ p e. ground (arith, h.clean p);
  dirty_read = λ p e. absurd (none_there r.dirtied p h.no_writes e);
  numbered = λ p e. absurd (none_there r.read p h.no_reads e);
  not_newer = λ p e. absurd (none_there r.read p h.no_reads e);
  inside = λ p e. absurd (none_there r.read p h.no_reads e);
}
  where
    none_there : (l : List ℕ) (p : ℕ) → l ≡ [] → has p l ≡ true → ⊥
    none_there l p e i = ground (arith, e)

Fresh-Seen : {r : Region} (pages : List ℕ) → Fresh r → pages ≡ [] → Seen r pages
unfolding has
Fresh-Seen pages h e o k = rw (h.no_reads, e)

-- Nothing is copied yet, so the process sees the bytes themselves.
clean-overlay : {m : Memory} → Started m → (f : Image) → f ≡ overlay m f
unfolding view
clean-overlay {m} t f = λ i. record {
  heap = fun_ext (λ j. byte m.heap t.heap f.heap j) i;
  globals = fun_ext (λ j. byte m.globals t.globals f.globals j) i;
}
  where
    byte : (r : Region) → Fresh r → (g : ℕ → ℕ) (j : ℕ) → g j ≡ view page_size g r.frames j
    byte r h g j = rw (h.clean (j / page_size))

pub starts-Follows : (p : Program) (s : Shared) (m : Memory) → Started m → Follows p s m p
starts-Follows p s m t = record {
  tracked = record {
    layout = t.layout;
    heap = Fresh-Tracks t.heap;
    globals = Fresh-Tracks t.globals;
    heap_seen = Fresh-Seen m.pages t.heap t.no_pages;
    globals_seen = Fresh-Seen m.pages t.globals t.no_pages;
  };
  same = λ f v. ap (run p) (clean-overlay t f);
}

-- Serving violations changes no byte.
pub Settles-Follows :
    {p : Program} {s : Shared} {m m' : Memory} {k : Program}
    → Follows p s m k
    → Settles s m m'
    → Follows p s m' k
Settles-Follows {p} {s} {m} {m'} {k} w z = record {
  tracked = z.tracked;
  same = λ f v.
      w.same f (record {
        heap_current = z.heap.current v.heap_current;
        globals_current = z.globals.current v.globals_current;
        heap_agrees = Opens-Agrees z.heap f.heap v.heap_agrees;
        globals_agrees = Opens-Agrees z.globals f.globals v.globals_agrees;
      })
      ∙ ap (run k) (sym (same_frames f));
}
  where
    same_frames : (f : Image) → overlay m' f ≡ overlay m f
    same_frames f = λ i. record {
      heap = view page_size f.heap (z.heap.frames i);
      globals = view page_size f.globals (z.globals.frames i);
    }

-- An open page has been read.
open_page_read :
    {s : Store} {r : Region} (t : Tracks s r) (p : ℕ)
    → allows_read (r.access p) ≡ true
    → has p r.read ≡ true
open_page_read t p h = ground (arith, t.open_read p)

region_byte :
    {s : Store} {r : Region} (t : Tracks s r) (f : ℕ → ℕ) (o : ℕ)
    → Agrees s r f
    → allows_read (r.access (o / page_size)) ≡ true
    → view page_size f r.frames o ≡ transient s r o
unfolding transient
region_byte t f o a h = ground (arith, t.private, a o (open_page_read t (o / page_size) h))

-- The byte that a load gives is the one that the program alone would find.
byte_at-fetch :
    {s : Shared} {m : Memory} (l : Location) (f : Image)
    → Tracked s m
    → Valid s m f
    → allows_read (access_of m l) ≡ true
    → fetch (overlay m f) l ≡ byte_at s m l
unfolding byte_at
byte_at-fetch (heap_at o) f t v h = region_byte t.heap f.heap o v.heap_agrees h
byte_at-fetch (globals_at o) f t v h = region_byte t.globals f.globals o v.globals_agrees h

pub loads-Follows :
    {p : Program} {s : Shared} {m : Memory} {l : Location} {k : ℕ → Program}
    → Follows p s m (load l k)
    → allows_read (access_of m l) ≡ true
    → Follows p s m (k (byte_at s m l))
unfolding run
loads-Follows {m} {l} {k} w h = record {
  tracked = w.tracked;
  same = λ f v. w.same f v ∙ ap (λ b. run (k b) (overlay m f)) (byte_at-fetch l f w.tracked v h);
}

-- A store to a page open for writing.
pub set_transient-Tracks :
    {s : Store} {r : Region} (o v : ℕ)
    → Tracks s r
    → r.access (o / page_size) ≡ Access.read_write
    → Tracks s (set_transient s o v r)
unfolding set_transient version_array_length
set_transient-Tracks {r} o v t h = record {
  private = t.private;
  open_read = t.open_read;
  write_dirty = t.write_dirty;
  copied_dirty = λ q. ground (arith, t.copied_dirty q, t.write_dirty (o / page_size) h);
  dirty_read = t.dirty_read;
  numbered = t.numbered;
  not_newer = t.not_newer;
  inside = t.inside;
}
