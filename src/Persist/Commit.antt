-- ===== src/Persist/Commit.antt =====
-- src/include/xpersist.h: the lock, the check of the versions, and the commit.
use grace.Prelude.{ℕ, ◌+◌, ◌/◌, ◌%◌, Bool, true, false, List, [], ◌∷◌, ltb, ◌==◌, if◌then◌else◌}
use grace.Defines.{page_size}
use grace.Result.{Result, ok, waiting, ◌>>=◌, ◌>>◌, require}
use grace.Persist.Mapping.{discard}
use grace.Persist.Region.{
  Store, Region, Access, int_mod, version_array_length, transient, local_version, protect,
}

-- `lock` waits while another process holds the lock.
unfoldable pub lock : Store → Region → Result (Store × Region)
lock s r = if s.held then waiting else ok (record s { held = true }, record r { is_locked = true })

unfoldable pub unlock : Store → Region → Store × Region
unlock s r = (record s { held = false }, record r { is_locked = false })

-- The loop of `consistent` over the pages read, which stops at the first stale one.
unfoldable pub consistent_loop : Store → Region → List ℕ → Bool
unfolding local_version
consistent_loop s r [] = true
consistent_loop s r (page ∷ pages) =
    if s.versions page == local_version s r page then consistent_loop s r pages else false

unfoldable pub consistent : Store → Region → Result Bool
unfolding consistent_loop
consistent s r = do require r.is_locked; ok (consistent_loop s r r.read)

-- The body of the first loop of `commit`: copy the page out, then number it anew.
unfoldable pub commit_page : Store → Region → ℕ → Result Store
unfolding transient local_version version_array_length
commit_page s r page = do
  require (ltb page (version_array_length r))
  ok (record s {
    memory = λ i. if i / page_size == page then transient s r i else s.memory i;
    versions = λ q. if q == page then (local_version s r page + 1) % int_mod else s.versions q;
  })

unfoldable pub commit_pages : Store → Region → List ℕ → Result Store
unfolding commit_page
commit_pages s r [] = ok s
commit_pages s r (page ∷ pages) = do s' ← commit_page s r page; commit_pages s' r pages

-- `updatePage`: drop the copy of the page and close the page.
unfoldable pub update_page : ℕ → Region → Region
unfolding discard protect
update_page page r = protect page Access.closed (record r { frames = discard page 1 r.frames })

unfoldable pub update_pages : List ℕ → Region → Region
unfolding update_page
update_pages [] r = r
update_pages (page ∷ pages) r = update_pages pages (update_page page r)

unfoldable pub commit : Store → Region → Result (Store × Region)
unfolding commit_pages update_pages
commit s r = do
  require r.is_locked
  s' ← commit_pages s r r.dirtied
  ok (s', update_pages r.dirtied r)

-- `commitMemory`: the first `_startsize` bytes become persistent at once.
unfoldable pub commit_memory : Store → Region → Store
unfolding transient
commit_memory s r = record s {
  memory = λ i. if ltb i r.start_size then transient s r i else s.memory i;
}
