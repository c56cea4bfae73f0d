-- ===== src/Persist/Restart.antt =====
-- `begin` and `updateAll` of src/include/xpersist.h.
use grace.Prelude.{ℕ, ◌+◌, ◌/◌, ◌≤◌, ◌≡◌, true, arith, ltb, if◌then◌else◌}
use grace.Defines.{page_size, page_size_mask, heap_size}
use grace.Persist.Region.{
  Store, Region, ints_per_page, version_array_length, local_version, update_all,
}

-- The pages of the version array that `updateAll` drops.
abbrev pub dropped : Region → ℕ
dropped r = (version_array_length r + page_size_mask) / page_size

-- `updateAll` makes the process read the current version of a page exactly where the version lies in
-- the first `VersionArrayLength` bytes of the array, rounded up to a page; other versions stay as
-- the process had them.
pub local_version-update_all :
    (s : Store) (r : Region) (p : ℕ)
    → local_version s (update_all r) p
      ≡ (if ltb (p / ints_per_page) (dropped r) then s.versions p else local_version s r p)
unfolding local_version update_all
local_version-update_all s r p = ground arith

-- In the heap these are the versions of the first quarter of the pages: behind it a version that the
-- process holds stays stale.
stale_after_update :
    (s : Store) (r : Region) (p : ℕ)
    → r.size ≡ heap_size
    → heap_size / page_size / 4 ≤ p
    → r.local_versions.copied (p / ints_per_page) ≡ true
    → local_version s (update_all r) p ≡ r.local_versions.items p
unfolding local_version update_all
stale_after_update s r p e h c = ground (arith, c)
