-- ===== src/Transaction/Steps.antt =====
-- Stores and other processes' commits keep a transaction in step with its program, so every run does.
use grace.Prelude.{
  ℕ, ◌/◌, ◌%◌, ◌≡◌, ap, sym, subst, fun_ext, ◌∙◌, Bool, true, arith, some, ◌==◌, if◌then◌else◌,
}
use grace.Defines.{page_size}
use grace.Persist.Mapping.{view, view-poke_other}
use grace.Persist.PageSet.{has}
use grace.Persist.Region.{Store, Region, Access, set_transient}
use grace.Persist.Isolation.{Tracks}
use grace.Persist.Interference.{Agrees, Evolves-Tracks, Evolves-AllCurrent, Evolves-Agrees}
use grace.Memory.{Shared, Memory}
use grace.Memory.Instruction.{
  Location, heap_at, globals_at, address, Inside, allows_read, allows_write, settle, set_byte,
  access_at,
}
use grace.Memory.Tracking.{Tracked}
use grace.Memory.Settling.{Settles, Settles-address, settle-Settles}
use grace.Memory.Progress.{access_of, access_at-address}
use grace.Transaction.{
  Program, store, Image, put, run, overlay, Interferes, Started, Runs, starts, loads, stores,
  others,
}
use grace.Transaction.Follows.{
  Valid, Follows, starts-Follows, Settles-Follows, loads-Follows, set_transient-Tracks,
}

view-set_transient :
    {s : Store} {r : Region} (f : ℕ → ℕ) (o v : ℕ)
    → Tracks s r
    → Agrees s r f
    → r.access (o / page_size) ≡ Access.read_write
    → (j : ℕ)
    → view page_size f (set_transient s o v r).frames j
      ≡ (if j == o then v else view page_size f r.frames j)
unfolding set_transient
view-set_transient {s} {r} f o v t a h =
    view-poke_other page_size s.memory r.frames f o v λ j e. a j (ground (arith, e, read_page))
  where
    read_page : has (o / page_size) r.read ≡ true
    read_page = t.dirty_read (o / page_size) (t.write_dirty (o / page_size) h)

set_byte-put :
    {s : Shared} {m : Memory} (l : Location) (v : ℕ) (f : Image)
    → Tracked s m
    → Valid s m f
    → access_of m l ≡ Access.read_write
    → put (overlay m f) l v ≡ overlay (set_byte s l v m) f
unfolding set_byte
set_byte-put {s} {m} (heap_at o) v f t w h = λ i. record {
  heap = fun_ext (λ j. sym (view-set_transient f.heap o (v % 256) t.heap w.heap_agrees h j)) i;
  globals = view page_size f.globals m.globals.frames;
}
set_byte-put {s} {m} (globals_at o) v f t w h = λ i. record {
  heap = view page_size f.heap m.heap.frames;
  globals =
      fun_ext (λ j. sym (view-set_transient f.globals o (v % 256) t.globals w.globals_agrees h j))
        i;
}

pub set_byte-Tracked :
    {s : Shared} {m : Memory} (l : Location) (v : ℕ)
    → Tracked s m
    → access_of m l ≡ Access.read_write
    → Tracked s (set_byte s l v m)
unfolding set_byte set_transient
set_byte-Tracked {s} {m} (heap_at o) v t h = record {
  layout = record {
    heap_aligned = t.layout.heap_aligned;
    globals_aligned = t.layout.globals_aligned;
    heap_pages = t.layout.heap_pages;
    globals_pages = t.layout.globals_pages;
    apart = t.layout.apart;
  };
  heap = set_transient-Tracks o (v % 256) t.heap h;
  globals = t.globals;
  heap_seen = t.heap_seen;
  globals_seen = t.globals_seen;
}
set_byte-Tracked {s} {m} (globals_at o) v t h = record {
  layout = record {
    heap_aligned = t.layout.heap_aligned;
    globals_aligned = t.layout.globals_aligned;
    heap_pages = t.layout.heap_pages;
    globals_pages = t.layout.globals_pages;
    apart = t.layout.apart;
  };
  heap = t.heap;
  globals = set_transient-Tracks o (v % 256) t.globals h;
  heap_seen = t.heap_seen;
  globals_seen = t.globals_seen;
}

-- A store leaves the page sets and the version numbers alone.
set_byte-Valid :
    {s : Shared} {m : Memory} (l : Location) (v : ℕ) (f : Image)
    → Valid s (set_byte s l v m) f
    → Valid s m f
unfolding set_byte set_transient
set_byte-Valid (heap_at o) v f w = record {
  heap_current = w.heap_current;
  globals_current = w.globals_current;
  heap_agrees = w.heap_agrees;
  globals_agrees = w.globals_agrees;
}
set_byte-Valid (globals_at o) v f w = record {
  heap_current = w.heap_current;
  globals_current = w.globals_current;
  heap_agrees = w.heap_agrees;
  globals_agrees = w.globals_agrees;
}

pub stores-Follows :
    {p : Program} {s : Shared} {m : Memory} {l : Location} {v : ℕ} {k : Program}
    → Follows p s m (store l v k)
    → access_of m l ≡ Access.read_write
    → Follows p s (set_byte s l v m) k
unfolding run
stores-Follows {m} {l} {v} {k} w h = record {
  tracked = set_byte-Tracked l v w.tracked h;
  same = λ f z.
      let before = set_byte-Valid {m = m} l v f z in
      w.same f before ∙ ap (run k) (set_byte-put l v f w.tracked before h);
}

others-Follows :
    {p : Program} {s s' : Shared} {m : Memory} {k : Program}
    → Follows p s m k
    → Interferes s s'
    → Follows p s' m k
others-Follows w e = record {
  tracked = record {
    layout = w.tracked.layout;
    heap = Evolves-Tracks w.tracked.heap e.heap;
    globals = Evolves-Tracks w.tracked.globals e.globals;
    heap_seen = w.tracked.heap_seen;
    globals_seen = w.tracked.globals_seen;
  };
  same = λ f v. w.same f (record {
    heap_current = Evolves-AllCurrent w.tracked.heap e.heap v.heap_current;
    globals_current = Evolves-AllCurrent w.tracked.globals e.globals v.globals_current;
    heap_agrees = Evolves-Agrees w.tracked.heap e.heap v.heap_current f.heap v.heap_agrees;
    globals_agrees =
        Evolves-Agrees w.tracked.globals e.globals v.globals_current f.globals v.globals_agrees;
  });
}

-- The protection that let an instruction through is that of its page.
pub settled :
    {s : Shared} {m m' : Memory} (allows : Access → Bool) (l : Location)
    → Tracked s m
    → Inside m l
    → settle 3 allows s (address m l) m ≡ some m'
    → Settles s m m' × (allows (access_of m' l) ≡ true)
settled {m'} allows l t h e =
    let (z, granted) = settle-Settles 3 allows l t h e in
    let (here, inside) = Settles-address l z h in
    (
      z,
      ap allows (sym (access_at-address m' l z.tracked.layout inside))
          ∙ subst (λ a. allows (access_at m' a) ≡ true) (sym here) granted,
    )

pub writable : (a : Access) → allows_write a ≡ true → a ≡ Access.read_write
writable a h = ground arith

pub Runs-Follows :
    {p : Program} {m₀ : Memory} {k : Program} {s : Shared} {m : Memory}
    → Started m₀
    → Runs p m₀ s m k
    → Follows p s m k
Runs-Follows {p} {m₀ = m₀} b (starts s) = starts-Follows p s m₀ b
Runs-Follows b (loads {l} m' r h e) =
    let w = Runs-Follows b r in
    let (z, open_now) = settled allows_read l w.tracked h e in
    loads-Follows (Settles-Follows w z) open_now
Runs-Follows b (stores {l} m' r h e) =
    let w = Runs-Follows b r in
    let (z, open_now) = settled allows_write l w.tracked h e in
    stores-Follows (Settles-Follows w z) (writable (access_of m' l) open_now)
Runs-Follows b (others s' r e) = others-Follows (Runs-Follows b r) e
