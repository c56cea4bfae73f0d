-- ===== src/Persist/Publish.antt =====
-- The shared files after `commit` of src/include/xpersist.h.
use grace.Prelude.{
  ℕ, ◌+◌, ◌/◌, ◌%◌, ◌<◌, ◌≡◌, refl, ◌∙◌, true, false, List, [], ◌∷◌, arith, ◌==◌, if◌then◌else◌,
}
use grace.Defines.{page_size}
use grace.Result.{ok}
use grace.Persist.PageSet.{has}
use grace.Persist.Region.{
  Store, Region, Access, ints_per_page, int_mod, version_array_length, transient, local_version,
}
use grace.Persist.Commit.{commit_page, commit_pages, update_page, update_pages, commit}
use grace.Persist.Isolation.{Tracks}

-- The files after the pages of `l` are committed.
pub record Published (s : Store) (r : Region) (l : List ℕ) (s' : Store) : Type 0 where
  pub bytes :
      (i : ℕ) → s'.memory i ≡ (if has (i / page_size) l then transient s r i else s.memory i)
  pub numbers :
      (p : ℕ)
      → s'.versions p ≡ (if has p l then (r.local_versions.items p + 1) % int_mod else s.versions p)
  pub same_lock : s'.held ≡ s.held

-- The pages of `l` are within the region, and the process has a version number of its own for each.
pub record Ready (r : Region) (l : List ℕ) : Type 0 where
  pub private : r.is_private ≡ true
  pub numbered : (p : ℕ) → has p l ≡ true → r.local_versions.copied (p / ints_per_page) ≡ true
  pub inside : (p : ℕ) → has p l ≡ true → p < version_array_length r

pub Tracks-Ready : {s : Store} {r : Region} → Tracks s r → Ready r r.dirtied
Tracks-Ready {s} {r} t = record {
  private = t.private;
  numbered = λ p h. t.numbered p (t.dirty_read p h);
  inside = λ p h. t.inside p (t.dirty_read p h);
}

Ready-sub :
    {r : Region} {l l' : List ℕ}
    → ((p : ℕ) → has p l' ≡ true → has p l ≡ true)
    → Ready r l
    → Ready r l'
Ready-sub sub d = record {
  private = d.private;
  numbered = λ p h. d.numbered p (sub p h);
  inside = λ p h. d.inside p (sub p h);
}

commit_page-Published :
    (s : Store) (r : Region) (p : ℕ)
    → Ready r (p ∷ [])
    → (s' : Store) × (commit_page s r p ≡ ok s') × Published s r (p ∷ []) s'
unfolding commit_page has
commit_page-Published s r p d = (
  record s {
    memory = λ i. if i / page_size == p then transient s r i else s.memory i;
    versions = λ q. if q == p then (local_version s r p + 1) % int_mod else s.versions q;
  },
  ground (arith, d.inside p),
  record {
    bytes = λ i. ground arith;
    numbers = λ q. ground (arith, d.numbered p);
    same_lock = refl;
  },
)

-- What the process itself sees does not change when a page is committed.
transient-Published :
    {s s' : Store} {r : Region} (p : ℕ) (i : ℕ)
    → r.is_private ≡ true
    → Published s r (p ∷ []) s'
    → transient s' r i ≡ transient s r i
unfolding transient has
transient-Published p i private w = ground (arith, w.bytes i)

Published-cons :
    {s s₁ s₂ : Store} {r : Region} (p : ℕ) (l : List ℕ)
    → r.is_private ≡ true
    → Published s r (p ∷ []) s₁
    → Published s₁ r l s₂
    → Published s r (p ∷ l) s₂
unfolding has
Published-cons p l private w v = record {
  bytes = λ i. ground (arith, w.bytes i, v.bytes i, transient-Published p i private w);
  numbers = λ q. ground (arith, w.numbers q, v.numbers q);
  same_lock = v.same_lock ∙ w.same_lock;
}

pub commit_pages-Published :
    (s : Store) (r : Region) (l : List ℕ)
    → Ready r l
    → (s' : Store) × (commit_pages s r l ≡ ok s') × Published s r l s'
unfolding commit_pages has
commit_pages-Published s r [] d =
    (s, refl, record { bytes = λ i. refl; numbers = λ p. refl; same_lock = refl })
commit_pages-Published s r (p ∷ l) d =
    let (s₁, e₁, w₁) = commit_page-Published s r p (Ready-sub (λ q h. ground arith) d) in
    let (s₂, e₂, w₂) = commit_pages-Published s₁ r l (Ready-sub (λ q h. ground arith) d) in
    (s₂, rw e₁ e₂, Published-cons p l d.private w₁ w₂)

-- The process's own view after the commit: the pages committed are dropped and closed.
pub record Reset (r : Region) (l : List ℕ) (r' : Region) : Type 0 where
  pub base : r'.base ≡ r.base
  pub size : r'.size ≡ r.size
  pub is_locked : r'.is_locked ≡ r.is_locked
  pub private : r'.is_private ≡ r.is_private
  pub copied : (p : ℕ) → r'.frames.copied p ≡ (if has p l then false else r.frames.copied p)
  pub access : (p : ℕ) → r'.access p ≡ (if has p l then Access.closed else r.access p)
  pub local_versions : r'.local_versions ≡ r.local_versions

Reset-cons :
    {r r' : Region} (q : ℕ) (l : List ℕ) → Reset (update_page q r) l r' → Reset r (q ∷ l) r'
unfolding update_page has
Reset-cons q l w = record {
  base = w.base;
  size = w.size;
  is_locked = w.is_locked;
  private = w.private;
  copied = λ p. ground (arith, w.copied p);
  access = λ p. ground (arith, w.access p);
  local_versions = w.local_versions;
}

pub update_pages-Reset : (r : Region) (l : List ℕ) → Reset r l (update_pages l r)
unfolding update_pages has
update_pages-Reset r [] = record {
  base = refl;
  size = refl;
  is_locked = refl;
  private = refl;
  copied = λ p. refl;
  access = λ p. refl;
  local_versions = refl;
}
update_pages-Reset r (q ∷ l) = Reset-cons q l (update_pages-Reset (update_page q r) l)

-- A commit of a tracked region under the lock goes through.
pub commit-Published :
    {s : Store} {r : Region}
    → Tracks s r
    → r.is_locked ≡ true
    → (s' : Store) × (commit s r ≡ ok (s', update_pages r.dirtied r)) × Published s r r.dirtied s'
unfolding commit
commit-Published {s} {r} t locked =
    let (s', e, w) = commit_pages-Published s r r.dirtied (Tracks-Ready t) in
    (s', ground (arith, locked, e), w)
