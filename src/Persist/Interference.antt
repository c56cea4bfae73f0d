-- ===== src/Persist/Interference.antt =====
-- What other processes' commits may do to the shared files while a transaction runs.
use grace.Prelude.{
  ℕ, ◌+◌, ◌/◌, ◌<◌, ◌≡◌, refl, ap, ◌∙◌, ◌⊎◌, inl, inr, true, List, arith, Bool-cases,
}
use grace.Defines.{page_size}
use grace.Persist.Mapping.{view}
use grace.Persist.PageSet.{has}
use grace.Persist.Region.{Store, Region, int_mod, transient}
use grace.Persist.Isolation.{Tracks, AllCurrent}
use grace.Persist.Publish.{Published}

-- Each page keeps its version and its bytes, or gets a later version.
pub record Evolves (s s' : Store) : Type 0 where
  pub page :
      (p : ℕ)
      → (s.versions p < s'.versions p)
        ⊎ ((s'.versions p ≡ s.versions p)
            × ((i : ℕ) → i / page_size ≡ p → s'.memory i ≡ s.memory i))

-- No page of `l` is at the last version number.
abbrev pub NoWrap : Store → List ℕ → Type 0
NoWrap s l = (p : ℕ) → has p l ≡ true → s.versions p + 1 < int_mod

-- `f` has the shared bytes on every page read.
abbrev pub Agrees : Store → Region → (ℕ → ℕ) → Type 0
Agrees s r f = (i : ℕ) → has (i / page_size) r.read ≡ true → f i ≡ s.memory i

-- A commit after a successful check gives each page that it writes a later version.
pub Published-Evolves :
    {s s' : Store} {r : Region}
    → Tracks s r
    → AllCurrent s r
    → NoWrap s r.dirtied
    → Published s r r.dirtied s'
    → Evolves s s'
Published-Evolves {s} {s'} {r} t c room w = record {
  page = λ p. elim (Bool-cases (has p r.dirtied)) [
    | inl d ↦ inl (ground (arith, d, w.numbers p, c p (t.dirty_read p d), room p d))
    | inr d ↦
        inr (
          ground (arith, w.numbers p),
          λ i e. ground (arith, w.bytes i, ap (λ q. has q r.dirtied) e),
        )
  ];
}

-- And it leaves exactly the bytes that the process saw.
pub Published-bytes :
    {s s' : Store} {r : Region}
    → Tracks s r
    → Published s r r.dirtied s'
    → (i : ℕ) → s'.memory i ≡ view page_size s.memory r.frames i
unfolding view transient
Published-bytes t w i = ground (arith, t.private, w.bytes i, t.copied_dirty (i / page_size))

module _ {s s' : Store} {r : Region} (t : Tracks s r) (e : Evolves s s') where
  pub Evolves-Tracks : Tracks s' r
  Evolves-Tracks = record {
    private = t.private;
    open_read = t.open_read;
    write_dirty = t.write_dirty;
    copied_dirty = t.copied_dirty;
    dirty_read = t.dirty_read;
    numbered = t.numbered;
    not_newer = λ p h. ground (arith, t.not_newer p h, e.page p);
    inside = t.inside;
  }

  pub Evolves-AllCurrent : AllCurrent s' r → AllCurrent s r
  Evolves-AllCurrent c p h = ground (arith, t.not_newer p h, e.page p, c p h)

  pub Evolves-Agrees : AllCurrent s' r → (f : ℕ → ℕ) → Agrees s' r f → Agrees s r f
  Evolves-Agrees c f a i h = elim (e.page (i / page_size)) [
    | inl later ↦ absurd (omega (arith, t.not_newer (i / page_size) h, c (i / page_size) h))
    | inr (_, same) ↦ a i h ∙ same i refl
  ]
