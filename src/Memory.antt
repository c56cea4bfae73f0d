-- ===== src/Memory.antt =====
-- src/include/xmemory.h: the two persistent regions, the fault handler that traps the first read and
-- the first write of each page, and the commit over both regions.
pub mod Instruction
pub mod Layout
pub mod Tracking
pub mod Settling
pub mod Progress
pub mod Commits
use grace.Prelude.{ℕ, ◌-◌, Bool, false, ◌&&◌, List, [], if◌then◌else◌}
use grace.Defines.{page_align_down}
use grace.Result.{Result, ok, aborted, ◌>>=◌}
use grace.Persist.PageSet.{insert, has}
use grace.Persist.Region.{Store, Region, Access, in_range, protect, compute_page}
use grace.Persist.Region
use grace.Persist.Commit

-- The shared files of the heap and of the globals.
pub record Shared : Type 0 where
  pub heap : Store
  pub globals : Store

-- One process's `xmemory` object; `pages` are the pages touched in this transaction.
pub record Memory : Type 0 where
  pub heap : Region
  pub globals : Region
  pub pages : List ℕ

unfoldable pub begin : Memory → Memory
unfolding Region.begin
begin m = record { heap = Region.begin m.heap; globals = Region.begin m.globals; pages = [] }

unfoldable pub record_read : Shared → ℕ → Memory → Memory
record_read s addr m =
    if in_range m.heap addr
    then record m { heap = Region.record_read s.heap addr m.heap }
    else if in_range m.globals addr
    then record m { globals = Region.record_read s.globals addr m.globals }
    else m

unfoldable pub record_write : ℕ → Memory → Memory
record_write addr m =
    if in_range m.heap addr
    then record m { heap = Region.record_write addr m.heap }
    else if in_range m.globals addr
    then record m { globals = Region.record_write addr m.globals }
    else m

unfoldable pub add_page : ℕ → Memory → Memory
add_page page m = record m { pages = insert page m.pages }

unfoldable pub page_seen : Memory → ℕ → Bool
page_seen m page = has page m.pages

-- `mprotect (page, PageSize, …)`, for whichever region the page belongs to.
unfoldable pub protect_page : ℕ → Access → Memory → Memory
protect_page page a m =
    if in_range m.heap page
    then record m { heap = protect (compute_page (page - m.heap.base)) a m.heap }
    else if in_range m.globals page
    then record m { globals = protect (compute_page (page - m.globals.base)) a m.globals }
    else m

unfoldable pub is_nop : Memory → Bool
unfolding Region.nop
is_nop m = Region.nop m.heap && Region.nop m.globals

unfoldable pub update_all : Memory → Memory
unfolding Region.update_all
update_all m = record m { heap = Region.update_all m.heap; globals = Region.update_all m.globals }

unfoldable pub abort : Memory → Memory
unfolding Region.abort
abort m = record m { heap = Region.abort m.heap; globals = Region.abort m.globals }

unfoldable pub lock : Shared → Memory → Result (Shared × Memory)
unfolding Commit.lock
lock s m = do
  (hs, hr) ← Commit.lock s.heap m.heap
  (gs, gr) ← Commit.lock s.globals m.globals
  ok (record { heap = hs; globals = gs }, record m { heap = hr; globals = gr })

unfoldable pub unlock : Shared → Memory → Shared × Memory
unfolding Commit.unlock
unlock s m =
    let (hs, hr) = Commit.unlock s.heap m.heap in
    let (gs, gr) = Commit.unlock s.globals m.globals in
    (record { heap = hs; globals = gs }, record m { heap = hr; globals = gr })

-- `_heap.consistent() && _globals.consistent()`.
unfoldable pub consistent : Shared → Memory → Result Bool
unfolding Commit.consistent
consistent s m = do
  h ← Commit.consistent s.heap m.heap
  if h then Commit.consistent s.globals m.globals else ok false

unfoldable pub is_consistent : Shared → Memory → Result (Bool × Shared × Memory)
unfolding lock consistent unlock
is_consistent s m = do
  (s', m') ← lock s m
  result ← consistent s' m'
  let (s'', m'') = unlock s' m'
  ok (result, s'', m'')

unfoldable pub commit_both : Shared → Memory → Result (Shared × Memory)
unfolding Commit.commit
commit_both s m = do
  (hs, hr) ← Commit.commit s.heap m.heap
  (gs, gr) ← Commit.commit s.globals m.globals
  ok (record { heap = hs; globals = gs }, record m { heap = hr; globals = gr })

unfoldable pub try_to_commit : Shared → Memory → Result (Bool × Shared × Memory)
unfolding lock consistent commit_both unlock
try_to_commit s m = do
  (s', m') ← lock s m
  committed ← consistent s' m'
  (s'', m'') ← if committed then commit_both s' m' else ok (s', m')
  let (s₃, m₃) = unlock s'' m''
  ok (committed, s₃, m₃)

-- `si_code` of a SEGV.
pub data SegvCode : Type 0 where
  accerr maperr other : SegvCode

-- The handler, for an access violation.
unfoldable pub handle_access : Shared → ℕ → Memory → Memory
handle_access s addr m =
    let page = page_align_down addr in
    if page_seen m page
    then record_write addr (protect_page page Access.read_write m)
    else record_read s addr (protect_page page Access.read_only (add_page page m))

-- `handle`: an address that is not mapped ends the process; any other violation rolls back.
unfoldable pub handle : SegvCode → Shared → ℕ → Memory → Result Memory
unfolding handle_access abort
handle SegvCode.accerr s addr m = ok (handle_access s addr m)
handle SegvCode.maperr s addr m = aborted
handle SegvCode.other s addr m = ok (abort m)
