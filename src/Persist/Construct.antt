-- ===== src/Persist/Construct.antt =====
-- The constructor of src/include/xpersist.h, and that of src/include/xglobals.h. What the system calls
-- answer is an argument.
use grace.Prelude.{
  ℕ, ◌+◌, ◌-◌, ◌%◌, Bool, true, false, ◌&&◌, not, Option, none, some, [], ltb, leb, ◌==◌,
  if◌then◌else◌,
}
use grace.Defines.{page_align_down, page_align_up, max_globals_size, word_mod}
use grace.Result.{Result, ok, aborted, undefined, ◌>>=◌, ◌>>◌, require}
use grace.Persist.Mapping.{unmodified}
use grace.Persist.Region.{Store, Region, Access}

-- Whether `mkstemp` made the first file, what `_versionsFd` holds before it is set, whether both files
-- could be sized, and the addresses of the four mappings, `none` for MAP_FAILED.
pub record Answers : Type 0 where
  pub backing_made : Bool
  pub garbage_fd : Bool
  pub sized : Bool
  pub persistent : Option ℕ
  pub transient : Option ℕ
  pub persistent_versions : Option ℕ
  pub local_versions : Option ℕ

-- Whether a mapping is there.
abbrev pub is_mapped : Option ℕ → Bool
is_mapped none = false
is_mapped (some _) = true

-- `memcpy (_persistentMemory, _startaddr, _startsize)`, where a start address was given: into a mapping of
-- `size` bytes, which may not be there.
unfoldable pub copy_start : Option ℕ → ℕ → ℕ → ℕ → (ℕ → ℕ) → Result (ℕ → ℕ)
copy_start persistent size startaddr startsize old =
    if startaddr == 0
    then ok (λ i. 0)
    else if is_mapped persistent && leb startsize size
    then ok (λ i. if ltb i startsize then old i else 0)
    else undefined

-- The objects, once all four mappings are there; both maps of the backing file are shared.
unfoldable pub mapped_at : ℕ → ℕ → (ℕ → ℕ) → ℕ → Store × Region
mapped_at size startsize memory base = (
  record { memory = memory; versions = λ p. 0; held = false },
  record {
    base = base;
    size = size;
    start_size = startsize;
    is_locked = false;
    read = [];
    dirtied = [];
    is_private = false;
    access = λ p. Access.read_write;
    frames = unmodified;
    local_versions = unmodified;
  },
)

unfoldable pub check_maps : ℕ → ℕ → (ℕ → ℕ) → Answers → Result (Store × Region)
unfolding mapped_at
check_maps size startsize memory a = elim a.transient [
  | none ↦ aborted
  | some base ↦
      if is_mapped a.persistent && (is_mapped a.local_versions && is_mapped a.persistent_versions)
      then ok (mapped_at size startsize memory base)
      else aborted
]

-- The constructor; `old` are the bytes from the start address on.
unfoldable pub construct : ℕ → ℕ → ℕ → (ℕ → ℕ) → Answers → Result (Store × Region)
unfolding copy_start check_maps
construct size startaddr startsize old a = do
  require (a.backing_made && not a.garbage_fd)
  require a.sized
  memory ← copy_start a.persistent size startaddr startsize old
  check_maps size startsize memory a

-- `xglobals`, from the page of the variable `gracestart` to the address of `_end`. The
-- assertion that the size fits is compiled only without assertions, and so is not there.
unfoldable pub globals_start : ℕ → ℕ
unfolding page_align_down
globals_start gracestart = page_align_down gracestart

unfoldable pub globals_end : ℕ → ℕ
unfolding page_align_up
globals_end end = page_align_up (end - 1)

unfoldable pub globals_size : ℕ → ℕ → ℕ
unfolding globals_start globals_end
globals_size gracestart end = (globals_end end + word_mod - globals_start gracestart) % word_mod

unfoldable pub construct_globals : ℕ → ℕ → (ℕ → ℕ) → Answers → Result (Store × Region)
unfolding construct globals_start globals_size
construct_globals gracestart end old a =
    construct max_globals_size (globals_start gracestart) (globals_size gracestart end) old a
