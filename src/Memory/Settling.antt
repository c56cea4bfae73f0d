-- ===== src/Memory/Settling.antt =====
-- The handler of src/include/xmemory.h seen from an instruction that is tried again after it.
use grace.Prelude.{
  ℕ, zero, suc, ◌+◌, ◌/◌, ◌<◌, ◌≡◌, refl, ap, sym, subst, ◌∙◌, inl, inr, Bool, true, false, arith,
  some, Bool-cases,
}
use grace.Defines.{page_size, page_align_down}
use grace.Persist.PageSet.{insert, has, has-insert}
use grace.Persist.Region.{Access}
use grace.Persist.Isolation.{open_to_read, open_to_write, open_to_read-Tracks, open_to_write-Tracks}
use grace.Memory.{Shared, Memory, handle_access}
use grace.Memory.Instruction.{Location, heap_at, globals_at, address, Inside, settle, access_at}
use grace.Memory.Layout.{
  Seen-insert_own, Seen-insert_other, handle_access-heap_seen, handle_access-heap_new,
  handle_access-globals_seen, handle_access-globals_new,
}
use grace.Memory.Tracking.{
  Tracked, Opens, Opens-refl, Opens-trans, open_to_read-Opens, open_to_write-Opens, page_inside,
}

pub record Settles (s : Shared) (m m' : Memory) : Type 0 where
  pub tracked : Tracked s m'
  pub heap : Opens s.heap m.heap m'.heap
  pub globals : Opens s.globals m.globals m'.globals

module _ {s : Shared} {m : Memory} (t : Tracked s m) (o : ℕ) where
  module _ (h : o < m.heap.size) where
    heap_seen-Settles :
        has (page_align_down (m.heap.base + o)) m.pages ≡ true
        → Settles s m (record m { heap = open_to_write (o / page_size) m.heap })
    unfolding open_to_write
    heap_seen-Settles e = record {
      tracked = record {
        layout = record {
          heap_aligned = t.layout.heap_aligned;
          globals_aligned = t.layout.globals_aligned;
          heap_pages = t.layout.heap_pages;
          globals_pages = t.layout.globals_pages;
          apart = t.layout.apart;
        };
        heap = open_to_write-Tracks t.heap (o / page_size) (sym (t.heap_seen o h) ∙ e);
        globals = t.globals;
        heap_seen = λ i k. ground (
          arith,
          t.heap_seen i k,
          t.heap_seen o h,
          has-insert (i / page_size) (o / page_size) m.heap.read,
        );
        globals_seen = t.globals_seen;
      };
      heap = open_to_write-Opens (o / page_size);
      globals = Opens-refl s.globals m.globals;
    }

    heap_new-Settles :
        has (page_align_down (m.heap.base + o)) m.pages ≡ false
        → Settles s m (record m {
          heap = open_to_read s.heap (o / page_size) m.heap;
          pages = insert (page_align_down (m.heap.base + o)) m.pages;
        })
    unfolding open_to_read
    heap_new-Settles e = record {
      tracked = record {
        layout = record {
          heap_aligned = t.layout.heap_aligned;
          globals_aligned = t.layout.globals_aligned;
          heap_pages = t.layout.heap_pages;
          globals_pages = t.layout.globals_pages;
          apart = t.layout.apart;
        };
        heap = open_to_read-Tracks t.heap (o / page_size) (page_inside m.heap o h);
        globals = t.globals;
        heap_seen =
            Seen-insert_own m.heap (open_to_read s.heap (o / page_size) m.heap) m.pages o
              t.layout.heap_aligned t.heap_seen refl refl refl;
        globals_seen =
            Seen-insert_other m.globals m.pages (m.heap.base + o) t.layout.globals_aligned
              t.layout.globals_pages (ground (arith, t.layout.apart)) t.globals_seen;
      };
      heap = open_to_read-Opens (o / page_size) t.heap (sym (t.heap_seen o h) ∙ e);
      globals = Opens-refl s.globals m.globals;
    }

  module _ (h : o < m.globals.size) where
    globals_seen-Settles :
        has (page_align_down (m.globals.base + o)) m.pages ≡ true
        → Settles s m (record m { globals = open_to_write (o / page_size) m.globals })
    unfolding open_to_write
    globals_seen-Settles e = record {
      tracked = record {
        layout = record {
          heap_aligned = t.layout.heap_aligned;
          globals_aligned = t.layout.globals_aligned;
          heap_pages = t.layout.heap_pages;
          globals_pages = t.layout.globals_pages;
          apart = t.layout.apart;
        };
        heap = t.heap;
        globals = open_to_write-Tracks t.globals (o / page_size) (sym (t.globals_seen o h) ∙ e);
        heap_seen = t.heap_seen;
        globals_seen = λ i k. ground (
          arith,
          t.globals_seen i k,
          t.globals_seen o h,
          has-insert (i / page_size) (o / page_size) m.globals.read,
        );
      };
      heap = Opens-refl s.heap m.heap;
      globals = open_to_write-Opens (o / page_size);
    }

    globals_new-Settles :
        has (page_align_down (m.globals.base + o)) m.pages ≡ false
        → Settles s m (record m {
          globals = open_to_read s.globals (o / page_size) m.globals;
          pages = insert (page_align_down (m.globals.base + o)) m.pages;
        })
    unfolding open_to_read
    globals_new-Settles e = record {
      tracked = record {
        layout = record {
          heap_aligned = t.layout.heap_aligned;
          globals_aligned = t.layout.globals_aligned;
          heap_pages = t.layout.heap_pages;
          globals_pages = t.layout.globals_pages;
          apart = t.layout.apart;
        };
        heap = t.heap;
        globals = open_to_read-Tracks t.globals (o / page_size) (page_inside m.globals o h);
        heap_seen =
            Seen-insert_other m.heap m.pages (m.globals.base + o) t.layout.heap_aligned
              t.layout.heap_pages (ground (arith, t.layout.apart)) t.heap_seen;
        globals_seen =
            Seen-insert_own m.globals (open_to_read s.globals (o / page_size) m.globals) m.pages o
              t.layout.globals_aligned t.globals_seen refl refl refl;
      };
      heap = Opens-refl s.heap m.heap;
      globals = open_to_read-Opens (o / page_size) t.globals (sym (t.globals_seen o h) ∙ e);
    }

-- The handler at an address of either region.
pub handle_access-Settles :
    {s : Shared} {m : Memory} (l : Location)
    → Tracked s m
    → Inside m l
    → Settles s m (handle_access s (address m l) m)
handle_access-Settles {s} {m} (heap_at o) t h =
    elim (Bool-cases (has (page_align_down (m.heap.base + o)) m.pages)) [
      | inl e ↦ rw (handle_access-heap_seen m s o t.layout h e) (heap_seen-Settles t o h e)
      | inr e ↦ rw (handle_access-heap_new m s o t.layout h e) (heap_new-Settles t o h e)
    ]
handle_access-Settles {s} {m} (globals_at o) t h =
    elim (Bool-cases (has (page_align_down (m.globals.base + o)) m.pages)) [
      | inl e ↦ rw (handle_access-globals_seen m s o t.layout h e) (globals_seen-Settles t o h e)
      | inr e ↦ rw (handle_access-globals_new m s o t.layout h e) (globals_new-Settles t o h e)
    ]

Settles-refl : {s : Shared} {m : Memory} → Tracked s m → Settles s m m
Settles-refl {s} {m} t = record {
  tracked = t;
  heap = Opens-refl s.heap m.heap;
  globals = Opens-refl s.globals m.globals;
}

Settles-trans :
    {s : Shared} {m m' m'' : Memory} → Settles s m m' → Settles s m' m'' → Settles s m m''
Settles-trans a b = record {
  tracked = b.tracked;
  heap = Opens-trans a.heap b.heap;
  globals = Opens-trans a.globals b.globals;
}

-- The bases and sizes do not change, so the location stays where it is.
pub Settles-address :
    {s : Shared} {m m' : Memory} (l : Location)
    → Settles s m m'
    → Inside m l
    → (address m' l ≡ address m l) × Inside m' l
Settles-address (heap_at o) w h =
    (ap (λ b. b + o) w.heap.base, subst (λ z. o < z) (sym w.heap.size) h)
Settles-address (globals_at o) w h =
    (ap (λ b. b + o) w.globals.base, subst (λ z. o < z) (sym w.globals.size) h)

pub settle_open :
    (tries : ℕ) (allows : Access → Bool) (s : Shared) (a : ℕ) (m : Memory)
    → allows (access_at m a) ≡ true
    → settle (suc tries) allows s a m ≡ some m
unfolding settle
settle_open tries allows s a m e = rw (e, settle)

pub settle_refused :
    (tries : ℕ) (allows : Access → Bool) (s : Shared) (a : ℕ) (m : Memory)
    → allows (access_at m a) ≡ false
    → settle (suc tries) allows s a m ≡ settle tries allows s a (handle_access s a m)
unfolding settle
settle_refused tries allows s a m e = rw (e, settle)

-- Whenever an instruction gets through, its page is open, and the regions are tracked.
pub settle-Settles :
    (tries : ℕ) (allows : Access → Bool) {s : Shared} {m m' : Memory} (l : Location)
    → Tracked s m
    → Inside m l
    → settle tries allows s (address m l) m ≡ some m'
    → Settles s m m' × (allows (access_at m' (address m l)) ≡ true)
unfolding settle
settle-Settles zero allows l t h e = cc
settle-Settles (suc tries) allows {s} {m} {m'} l t h e =
    elim (Bool-cases (allows (access_at m (address m l)))) [
      | inl granted ↦
          let same : m ≡ m' = cc (settle_open tries allows s (address m l) m granted) in
          subst (λ z. Settles s m z × (allows (access_at z (address m l)) ≡ true)) same
            (Settles-refl t, granted)
      | inr refused ↦
          let m₁ = handle_access s (address m l) m in
          let w = handle_access-Settles l t h in
          let (here, inside) = Settles-address l w h in
          let e₁ : settle tries allows s (address m l) m₁ ≡ some m' =
            sym (settle_refused tries allows s (address m l) m refused) ∙ e in
          let (w', granted) =
            settle-Settles tries allows l w.tracked inside
              (subst (λ a. settle tries allows s a m₁ ≡ some m') (sym here) e₁) in
          (Settles-trans w w', subst (λ a. allows (access_at m' a) ≡ true) here granted)
    ]
