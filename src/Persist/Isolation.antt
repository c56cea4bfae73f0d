-- ===== src/Persist/Isolation.antt =====
-- What a region's page sets, protections and version numbers say of one another in a transaction.
use grace.Prelude.{
  ℕ, ◌+◌, ◌-◌, ◌/◌, ◌≤◌, ◌<◌, ◌≡◌, refl, ◌⊎◌, ◌↔◌, true, false, List, [], ◌∷◌, arith, ◌==◌,
  if◌then◌else◌,
}
use grace.Defines.{page_size}
use grace.Persist.Mapping.{poke}
use grace.Persist.PageSet.{insert, has, has-insert}
use grace.Persist.Region.{
  Store, Region, Access, ints_per_page, version_array_length, in_range, protect, record_read,
  record_write,
}
use grace.Persist.Commit.{consistent_loop}

-- The pages in use are tracked: what is open has been read, what is writable or copied is to be
-- committed, and of each page read the process holds a version number of its own.
pub record Tracks (s : Store) (r : Region) : Type 0 where
  pub private : r.is_private ≡ true
  pub open_read : (p : ℕ) → (r.access p ≡ Access.closed) ⊎ (has p r.read ≡ true)
  pub write_dirty : (p : ℕ) → r.access p ≡ Access.read_write → has p r.dirtied ≡ true
  pub copied_dirty : (p : ℕ) → r.frames.copied p ≡ true → has p r.dirtied ≡ true
  pub dirty_read : (p : ℕ) → has p r.dirtied ≡ true → has p r.read ≡ true
  pub numbered : (p : ℕ) → has p r.read ≡ true → r.local_versions.copied (p / ints_per_page) ≡ true
  pub not_newer : (p : ℕ) → has p r.read ≡ true → r.local_versions.items p ≤ s.versions p
  pub inside : (p : ℕ) → has p r.read ≡ true → p < version_array_length r

-- No page that was read has a new version.
abbrev pub AllCurrent : Store → Region → Type 0
AllCurrent s r = (p : ℕ) → has p r.read ≡ true → r.local_versions.items p ≡ s.versions p

-- The effect of the first access to a page.
unfoldable pub open_to_read : Store → ℕ → Region → Region
open_to_read s p r = record r {
  access = λ q. if q == p then Access.read_only else r.access q;
  local_versions = poke ints_per_page s.versions r.local_versions p (s.versions p);
  read = insert p r.read;
}

-- The effect of the first write to a page that was read.
unfoldable pub open_to_write : ℕ → Region → Region
open_to_write p r = record r {
  access = λ q. if q == p then Access.read_write else r.access q;
  dirtied = insert p r.dirtied;
  read = insert p r.read;
}

in_range-offset : (r : Region) (o : ℕ) → o < r.size → in_range r (r.base + o) ≡ true
unfolding in_range
in_range-offset r o h = ground arith

offset_page : (b o : ℕ) → (b + o - b) / page_size ≡ o / page_size
offset_page b o = omega arith

pub protect-record_read :
    (s : Store) (r : Region) (o : ℕ)
    → o < r.size
    → record_read s (r.base + o) (protect (o / page_size) Access.read_only r)
      ≡ open_to_read s (o / page_size) r
unfolding record_read protect open_to_read
protect-record_read s r o h = rw (offset_page r.base o) (ground arith)

pub protect-record_write :
    (r : Region) (o : ℕ)
    → o < r.size
    → record_write (r.base + o) (protect (o / page_size) Access.read_write r)
      ≡ open_to_write (o / page_size) r
unfolding record_write protect open_to_write
protect-record_write r o h = ground arith

-- The loop succeeds exactly if the version of each page of the list is the one held locally.
loop-current :
    (s : Store) (r : Region) (l : List ℕ)
    → ((p : ℕ) → has p l ≡ true → r.local_versions.copied (p / ints_per_page) ≡ true)
    → consistent_loop s r l ≡ true
    → (p : ℕ) → has p l ≡ true
    → r.local_versions.items p ≡ s.versions p
unfolding consistent_loop has
loop-current s r [] own h p i = cc
loop-current s r (q ∷ l) own h p i =
    ground (arith, own q, own p, loop-current s r l (λ p' i'. own p' (ground arith)) _ p)

current-loop :
    (s : Store) (r : Region) (l : List ℕ)
    → ((p : ℕ) → has p l ≡ true → r.local_versions.copied (p / ints_per_page) ≡ true)
    → ((p : ℕ) → has p l ≡ true → r.local_versions.items p ≡ s.versions p)
    → consistent_loop s r l ≡ true
unfolding consistent_loop has
current-loop s r [] own c = refl
current-loop s r (q ∷ l) own c = ground (
  arith,
  own q,
  c q,
  current-loop s r l (λ p' i'. own p' (ground arith)) (λ p' i'. c p' (ground arith)),
)

module _ {s : Store} {r : Region} (t : Tracks s r) where
  pub open_to_read-Tracks : (p : ℕ) → p < version_array_length r → Tracks s (open_to_read s p r)
  unfolding open_to_read poke version_array_length
  open_to_read-Tracks p h = record {
    private = t.private;
    open_read = λ q. ground (arith, t.open_read q, has-insert q p r.read);
    write_dirty = λ q. ground (arith, t.write_dirty q);
    copied_dirty = t.copied_dirty;
    dirty_read = λ q. ground (arith, t.dirty_read q, has-insert q p r.read);
    numbered = λ q. ground (arith, t.numbered q, has-insert q p r.read);
    not_newer = λ q. ground (arith, t.not_newer q, t.numbered q, has-insert q p r.read);
    inside = λ q. ground (arith, t.inside q, has-insert q p r.read);
  }

  pub open_to_write-Tracks : (p : ℕ) → has p r.read ≡ true → Tracks s (open_to_write p r)
  unfolding open_to_write version_array_length
  open_to_write-Tracks p h = record {
    private = t.private;
    open_read = λ q. ground (arith, t.open_read q, has-insert q p r.read);
    write_dirty = λ q. ground (arith, t.write_dirty q, has-insert q p r.dirtied);
    copied_dirty = λ q. ground (arith, t.copied_dirty q, has-insert q p r.dirtied);
    dirty_read =
        λ q. ground (arith, t.dirty_read q, has-insert q p r.read, has-insert q p r.dirtied);
    numbered = λ q. ground (arith, t.numbered q, has-insert q p r.read);
    not_newer = λ q. ground (arith, t.not_newer q, has-insert q p r.read);
    inside = λ q. ground (arith, t.inside q, has-insert q p r.read);
  }

  -- A page that is read late does not make older reads current.
  pub AllCurrent-open_to_read :
      (p : ℕ) → has p r.read ≡ false → AllCurrent s (open_to_read s p r) → AllCurrent s r
  unfolding open_to_read poke
  AllCurrent-open_to_read p new c q h = ground (arith, c q, t.numbered q h, has-insert q p r.read)

  -- The check of the versions decides whether all are current.
  pub consistent-AllCurrent : (consistent_loop s r r.read ≡ true) ↔ AllCurrent s r
  consistent-AllCurrent = (loop-current s r r.read t.numbered, current-loop s r r.read t.numbered)
