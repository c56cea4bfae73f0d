-- ===== src/Memory/Tracking.antt =====
-- What the handler of src/include/xmemory.h keeps of both regions while a transaction runs.
use grace.Prelude.{ℕ, ◌/◌, ◌<◌, ◌≡◌, refl, ◌∙◌, true, false, arith}
use grace.Defines.{page_size}
use grace.Persist.PageSet.{has, has-insert}
use grace.Persist.Region.{Store, Region, version_array_length}
use grace.Persist.Isolation.{
  Tracks, AllCurrent, open_to_read, open_to_write, AllCurrent-open_to_read,
}
use grace.Persist.Interference.{Agrees}
use grace.Memory.{Shared, Memory}
use grace.Memory.Layout.{Layout, Seen}

pub record Tracked (s : Shared) (m : Memory) : Type 0 where
  pub layout : Layout m
  pub heap : Tracks s.heap m.heap
  pub globals : Tracks s.globals m.globals
  pub heap_seen : Seen m.heap m.pages
  pub globals_seen : Seen m.globals m.pages

-- Between `r` and `r'` more pages were opened, and no byte of the mapping was changed.
pub record Opens (s : Store) (r r' : Region) : Type 0 where
  pub base : r'.base ≡ r.base
  pub size : r'.size ≡ r.size
  pub frames : r'.frames ≡ r.frames
  pub locked : r'.is_locked ≡ r.is_locked
  pub more : (p : ℕ) → has p r.read ≡ true → has p r'.read ≡ true
  pub current : AllCurrent s r' → AllCurrent s r

pub Opens-refl : (s : Store) (r : Region) → Opens s r r
Opens-refl s r = record {
  base = refl;
  size = refl;
  frames = refl;
  locked = refl;
  more = λ p h. h;
  current = λ c. c;
}

pub Opens-trans : {s : Store} {r r' r'' : Region} → Opens s r r' → Opens s r' r'' → Opens s r r''
Opens-trans a b = record {
  base = b.base ∙ a.base;
  size = b.size ∙ a.size;
  frames = b.frames ∙ a.frames;
  locked = b.locked ∙ a.locked;
  more = λ p h. b.more p (a.more p h);
  current = λ c. a.current (b.current c);
}

pub Opens-Agrees :
    {s : Store} {r r' : Region} → Opens s r r' → (f : ℕ → ℕ) → Agrees s r' f → Agrees s r f
Opens-Agrees o f a i h = a i (o.more (i / page_size) h)

pub open_to_read-Opens :
    {s : Store} {r : Region} (p : ℕ)
    → Tracks s r
    → has p r.read ≡ false
    → Opens s r (open_to_read s p r)
unfolding open_to_read
open_to_read-Opens {r} p t new = record {
  base = refl;
  size = refl;
  frames = refl;
  locked = refl;
  more = λ q h. ground (arith, has-insert q p r.read);
  current = AllCurrent-open_to_read t p new;
}

pub open_to_write-Opens : {s : Store} {r : Region} (p : ℕ) → Opens s r (open_to_write p r)
unfolding open_to_write
open_to_write-Opens {r} p = record {
  base = refl;
  size = refl;
  frames = refl;
  locked = refl;
  more = λ q h. ground (arith, has-insert q p r.read);
  current = λ c q h. ground (arith, c q, has-insert q p r.read);
}

pub page_inside : (r : Region) (o : ℕ) → o < r.size → o / page_size < version_array_length r
unfolding version_array_length
page_inside r o h = omega arith
