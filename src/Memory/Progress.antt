-- ===== src/Memory/Progress.antt =====
-- How often an instruction on a byte of either region meets a violation, by the handler of
-- src/include/xmemory.h.
use grace.Prelude.{
  ℕ, suc, ◌+◌, ◌/◌, ◌≡◌, ap, sym, subst, ◌∙◌, inl, inr, Bool, true, false, arith, some, Bool-cases,
}
use grace.Defines.{page_size, page_align_down}
use grace.Persist.PageSet.{has, has-insert}
use grace.Persist.Region.{Access}
use grace.Persist.Isolation.{open_to_write}
use grace.Memory.{Shared, Memory, handle_access}
use grace.Memory.Instruction.{Location, heap_at, globals_at, address, Inside, settle, access_at}
use grace.Memory.Layout.{
  Layout, apart_globals, handle_access-heap_seen, handle_access-heap_new,
  handle_access-globals_seen, handle_access-globals_new,
}
use grace.Memory.Tracking.{Tracked}
use grace.Memory.Settling.{Settles-address, handle_access-Settles, settle_open, settle_refused}

-- The protection that an instruction meets is that of the location's page.
abbrev pub access_of : Memory → Location → Access
access_of m (heap_at o) = m.heap.access (o / page_size)
access_of m (globals_at o) = m.globals.access (o / page_size)

pub access_at-address :
    (m : Memory) (l : Location) → Layout m → Inside m l → access_at m (address m l) ≡ access_of m l
unfolding access_at
access_at-address m (heap_at o) y h = ground arith
access_at-address m (globals_at o) y h = ground (arith, apart_globals o y h)

seen_opens :
    (s : Shared) (m : Memory) (l : Location)
    → Layout m
    → Inside m l
    → has (page_align_down (address m l)) m.pages ≡ true
    → access_of (handle_access s (address m l) m) l ≡ Access.read_write
unfolding open_to_write
seen_opens s m (heap_at o) y h e = rw (handle_access-heap_seen m s o y h e) (ground arith)
seen_opens s m (globals_at o) y h e = rw (handle_access-globals_seen m s o y h e) (ground arith)

new_marks :
    (s : Shared) (m : Memory) (l : Location)
    → Layout m
    → Inside m l
    → has (page_align_down (address m l)) m.pages ≡ false
    → has (page_align_down (address m l)) (handle_access s (address m l) m).pages ≡ true
new_marks s m (heap_at o) y h e = rw (handle_access-heap_new m s o y h e) (
    ground (
      arith,
      has-insert (page_align_down (m.heap.base + o)) (page_align_down (m.heap.base + o)) m.pages,
    ))
new_marks s m (globals_at o) y h e = rw (handle_access-globals_new m s o y h e) (
    ground (
      arith,
      has-insert (page_align_down (m.globals.base + o)) (page_align_down (m.globals.base + o))
          m.pages,
    ))

module _ (allows : Access → Bool) (full : allows Access.read_write ≡ true) (s : Shared)
    (l : Location) where
  -- On a page that was seen, the second try gets through.
  settle_seen :
      (tries : ℕ) (m : Memory)
      → Tracked s m
      → Inside m l
      → has (page_align_down (address m l)) m.pages ≡ true
      → (m' : Memory) × (settle (suc (suc tries)) allows s (address m l) m ≡ some m')
  settle_seen tries m t h e = elim (Bool-cases (allows (access_at m (address m l)))) [
    | inl granted ↦ (m, settle_open (suc tries) allows s (address m l) m granted)
    | inr refused ↦
        let m₁ = handle_access s (address m l) m in
        let w = handle_access-Settles l t h in
        let (here, inside) = Settles-address l w h in
        let open_now : allows (access_at m₁ (address m l)) ≡ true =
          subst (λ a. allows (access_at m₁ a) ≡ true) here
            (ap allows
                (access_at-address m₁ l w.tracked.layout inside ∙ seen_opens s m l t.layout h e)
              ∙ full) in
        (
          m₁,
          settle_refused (suc tries) allows s (address m l) m refused
              ∙ settle_open tries allows s (address m l) m₁ open_now,
        )
  ]

  -- In a running transaction, a load or a store of a byte of the heap or of the globals gets through
  -- after two violations at the most, for any protection check `allows` that a writable page passes.
  pub settle_total :
      (m : Memory)
      → Tracked s m
      → Inside m l
      → (m' : Memory) × (settle 3 allows s (address m l) m ≡ some m')
  settle_total m t h = elim (Bool-cases (has (page_align_down (address m l)) m.pages)) [
    | inl seen ↦ settle_seen 1 m t h seen
    | inr new ↦ elim (Bool-cases (allows (access_at m (address m l)))) [
      | inl granted ↦ (m, settle_open 2 allows s (address m l) m granted)
      | inr refused ↦
          let m₁ = handle_access s (address m l) m in
          let w = handle_access-Settles l t h in
          let (here, inside) = Settles-address l w h in
          let (m', e) = settle_seen 0 m₁ w.tracked inside (
            subst (λ a. has (page_align_down a) m₁.pages ≡ true) (sym here)
              (new_marks s m l t.layout h new)) in
          (
            m',
            settle_refused 2 allows s (address m l) m refused
                ∙ subst (λ a. settle 2 allows s a m₁ ≡ some m') here e,
          )
    ]
  ]
