-- ===== src/Lib.antt =====
-- Grace: a runtime for C and C++ programs that runs each thread as a process and each stretch of
-- its code as a transaction on shared memory, so that the program behaves as if its threads ran
-- one after the other.
--
-- The program's parts. Every process has an `xrun` (src/include/xrun.h), which begins and ends
-- transactions, waits for the process's predecessor, and keeps buffered output (`xio`,
-- src/include/xio.h). Its `xmemory` (src/include/xmemory.h) holds two persistent regions, the heap
-- and the globals, each an `xpersist` (src/include/xpersist.h). The pages of a region are closed when
-- a process starts and after a rollback; a commit closes those that it wrote. The first violation on a page is taken for a read and records the page's
-- version, the second for a write. At the end `tryToCommit` takes both locks, compares the versions
-- of the pages read, and copies the pages written to the shared file under new version numbers; or
-- the transaction is rolled back. A thread that waits for another does so at a latch
-- (src/include/xlatch.h, src/include/xthread.h).
--
-- The files.
--   Defines: src/include/xdefines.h and the page arithmetic of src/include/xglobals.h.
--   Result: calls that abort, wait for a lock, or are undefined in C++.
--   Persist: src/include/xpersist.h. Region holds the state (`Store` for what all processes share,
--     `Region` for one process's object) with recordRead, recordWrite, begin, abort, nop and
--     updateAll; Commit holds lock, unlock, consistent, commit and commitMemory; Mapping and
--     PageSet are the private mappings and the sets that they stand on; Construct and Built are the
--     constructor, with that of src/include/xglobals.h; the other files relate them to what other
--     processes may do to the shared files.
--   Memory: src/include/xmemory.h, with the handler of violations. Memory/Instruction says how a
--     load or store meets the protection of a page and is tried again after the handler.
--   Transaction: a program of loads and stores between atomicBegin and atomicEnd, interleaved with
--     commits of other processes (`Runs`), and the same program run alone (`run`).
--   Locking: any number of processes in tryToCommit and isConsistent of src/include/xmemory.h; a step is
--     one lock, one check, the commit of one region, or one unlock.
--   Overlap: any number of processes that run transactions and commit them, with every load, store, lock,
--     check, write and unlock a step of its own.
--   System: the programs of transactions run one after the other, the abstract view of a run.
--   Run: src/include/xrun.h. What is visible from outside is a log of marks.
--     Run/Calls holds the calls that are forwarded to src/include/xio.h.
--   Start: how a process starts: the constructors and malloc of src/include/xmemory.h, and initialize
--     of src/include/xrun.h.
--   Thread: src/include/xthread.h and src/source/xthread.cpp.
--   Sequence: whole programs with threads, whose steps are the ends of transactions, forks, joins and exits.
--     The order without threads is `sequence`. Every spawn forks here; one in place is a part of a
--     transaction. An exit opens the latch of the process's id modulo the length of the table of latches.
--     A sync of a forked thread is two steps, the end of its transaction and the wait.
--   Context: src/include/xcontext.h and src/source/xcontext.cpp. The fuel of restore_stack is the room
--     on the stack, in frames of the function.
--   Latch: src/include/xlatch.h as a step relation (`Step`, `Reach`).
--   Io: src/include/xfile.h, xsection.h and xio.h.
--   Bump: src/include/bumpheap.h.
--   Header: NewSourceHeap of src/include/warpheap.h.
--   Diffs: src/source/testdiffs.cpp.
--   Log: src/include/log.h.
--   Heap: src/include/graceheap.h, ppheap.h, roundup.h and xadaptheap.h; the heaps of Heap Layers are an
--     argument.
--   Libc: src/source/libgrace.cpp: the functions of the C library's heap, over a heap that is an
--     argument; Threads has the pthread functions and printf.
--   Wrapper: src/source/wrapper.cpp, over a heap that is an argument.
--   Condition: the condition variables of src/source/libgrace.cpp as a step relation.
--   Tests: the definitions at concrete inputs.
--
-- How the source is rendered. Numbers are naturals; a version number wraps at 2 ^ 32 as the `int`
-- does, and addresses and sizes are those of a 32-bit build, the one that Grace supports. The
-- element type of a region is `char`, as at both places that use the template. Assertions are in
-- force, and an assertion that fails is the result `aborted`. mmap, madvise, mprotect and the
-- semaphore calls are what POSIX says of them: a frame of a private mapping shows the file until it
-- is written, and its own copy from then on. What the operating system answers to other calls is an
-- argument. `settle` tries an instruction three times: two violations of a page are served at the
-- most, which Memory.Progress shows to be enough. In Transaction and Sequence one load, one
-- store, one commit of another process is one step, and each is taken as a whole. Locking takes the
-- calls apart into locks, check, commits and unlocks; Persist/Writing takes the commit of a region apart
-- into single writes, Transaction/Amid has a transaction run between these, and Overlap puts all of it
-- together. The processes see each
-- other's writes in the order in which they are made.
--
-- A transaction may begin with pages left open by the last commit; what it reads there is not recorded
-- (Transaction/Restart). Where a theorem needs that a transaction began with all pages closed, it says so:
-- by `Started` of the memory at its start, or for a whole run by `AllBeginClosed` (Overlap) and `AllOrderly`
-- (Sequence), which also asks of each fork a child with a latch of its own.
--
-- Not modelled: the destructor of src/include/xpersist.h, which only unmaps; the installation of the
-- signal handler; the locks themselves (src/include/xplock.h), which are a flag of the store they
-- protect; the allocators of Heap Layers and dlmalloc, which are other projects' code copied into the
-- repository; the older entry points src/source/libgrace2.cpp, which no target builds.
pub mod Prelude
pub mod Defines
pub mod Result
pub mod Persist
pub mod Memory
pub mod Transaction
pub mod System
pub mod Latch
pub mod Io
pub mod Run
pub mod Thread
pub mod Context
pub mod Bump
pub mod Diffs
pub mod Log
pub mod Libc
pub mod Header
pub mod Heap
pub mod Start
pub mod Condition
pub mod Sequence
pub mod Locking
pub mod Wrapper
pub mod Overlap
mod Tests
