-- ===== src/Persist/Region.antt =====
-- src/include/xpersist.h: the state of a persistent region and what is recorded of a transaction.
-- The template's `Type` is `char` at both places that use it, so an index is an offset in bytes.
use grace.Prelude.{
  ℕ, ◌+◌, ◌-◌, ◌/◌, ◌^◌, Bool, true, false, ◌&&◌, List, [], ltb, leb, ◌==◌, if◌then◌else◌,
}
use grace.Defines.{page_size, page_size_mask}
use grace.Persist.Mapping.{Mapping, unmodified, view, poke, discard}
use grace.Persist.PageSet.{insert}

-- The files behind the shared mappings, which every process sees, and the lock in its own file.
pub record Store : Type 0 where
  pub memory : ℕ → ℕ
  pub versions : ℕ → ℕ
  pub held : Bool

-- The protection of a page: `PROT_NONE`, `PROT_READ`, or writable too.
pub data Access : Type 0 where
  closed read_only read_write : Access

-- One process's `xpersist` object with its two mappings. `_transientMemory` is mapped shared until
-- the first `updateAll`, and private from then on.
pub record Region : Type 0 where
  pub base : ℕ
  pub size : ℕ
  pub start_size : ℕ
  pub is_locked : Bool
  pub read : List ℕ
  pub dirtied : List ℕ
  pub is_private : Bool
  pub access : ℕ → Access
  pub frames : Mapping
  pub local_versions : Mapping

-- The number of versions in one page frame of the version array.
abbrev pub ints_per_page : ℕ
ints_per_page = 1024

-- Version numbers are of type `int`.
abbrev pub int_mod : ℕ
int_mod = 2 ^ 32

-- `VersionArrayLength`.
unfoldable pub version_array_length : Region → ℕ
version_array_length r = (r.size + page_size_mask) / page_size

unfoldable pub in_range : Region → ℕ → Bool
in_range r addr = leb r.base addr && ltb addr (r.base + r.size)

-- `sizeof(Type)` is 1.
abbrev pub compute_page : ℕ → ℕ
compute_page index = index / page_size

-- `_transientMemory[i]` as the process reads it.
unfoldable pub transient : Store → Region → ℕ → ℕ
unfolding view
transient s r i = if r.is_private then view page_size s.memory r.frames i else s.memory i

-- `_transientMemory[i] = v`, once the mapping is private.
unfoldable pub set_transient : Store → ℕ → ℕ → Region → Region
unfolding poke
set_transient s i v r = record r { frames = poke page_size s.memory r.frames i v }

-- `_localVersions[page]`.
unfoldable pub local_version : Store → Region → ℕ → ℕ
unfolding view
local_version s r page = view ints_per_page s.versions r.local_versions page

-- `_localVersions[page] = v`.
unfoldable pub set_local_version : Store → ℕ → ℕ → Region → Region
unfolding poke
set_local_version s page v r = record r {
  local_versions = poke ints_per_page s.versions r.local_versions page v;
}

-- `mprotect` of one page of the transient mapping.
unfoldable pub protect : ℕ → Access → Region → Region
protect page a r = record r { access = λ q. if q == page then a else r.access q }

unfoldable pub record_read : Store → ℕ → Region → Region
unfolding in_range set_local_version insert
record_read s addr r =
    let page = compute_page (addr - r.base) in
    let seen = set_local_version s page (s.versions page) r in
    if in_range r addr then record seen { read = insert page r.read } else r

unfoldable pub record_write : ℕ → Region → Region
unfolding in_range insert
record_write addr r =
    let page = compute_page (addr - r.base) in
    if in_range r addr
    then record r { dirtied = insert page r.dirtied; read = insert page r.read }
    else r

-- `begin`: the page sets are emptied, and nothing else is touched.
unfoldable pub begin : Region → Region
begin r = record r { read = []; dirtied = [] }

-- `updateAll`: the length given to `madvise` is the number of versions, not of their bytes.
unfoldable pub update_all : Region → Region
unfolding discard version_array_length
update_all r = record r {
  local_versions =
      discard 0 ((version_array_length r + page_size_mask) / page_size) r.local_versions;
  is_private = true;
  access = λ _. Access.closed;
  frames = unmodified;
}

-- `abort`.
unfoldable pub abort : Region → Region
unfolding update_all
abort r = update_all r

abbrev pub is_empty : List ℕ → Bool
is_empty [] = true
is_empty _ = false

unfoldable pub nop : Region → Bool
nop r = is_empty r.read && is_empty r.dirtied
