-- ===== src/Tests/Persist.antt =====
-- A region of the heap's size whose process holds versions from before.
use grace.Prelude.{◌/◌, ◌≡◌, true, false, [], ltb, if◌then◌else◌}
use grace.Defines.{heap_size}
use grace.Persist.Mapping.{unmodified}
use grace.Persist.Region.{Store, Region, Access, ints_per_page, local_version, update_all}
use grace.Persist.Restart.{dropped, local_version-update_all}

abbrev region : Region
region = record {
  base = 0x10000000;
  size = heap_size;
  start_size = 0;
  is_locked = false;
  read = [];
  dirtied = [];
  is_private = true;
  access = λ _. Access.closed;
  frames = unmodified;
  local_versions = record { copied = λ _. true; items = λ _. 5 };
}

abbrev later : Store
later = record { memory = λ i. 0; versions = λ p. 6; held = false }

local_version-update_all_example :
    local_version later (update_all region) 100
    ≡ (if ltb (100 / ints_per_page) (dropped region) then 6 else local_version later region 100)
local_version-update_all_example = local_version-update_all later region 100
