-- ===== src/Tests.antt =====
-- Runs of the definitions, and the theorems at concrete inputs.
mod Amid
mod Bump
mod Context
mod Header
mod Io
mod Latch
mod Libc
mod Locking
mod Numbers
mod Overlap
mod Persist
mod Retry
mod Run
mod Sequence
mod Thread
mod Threads
mod Start
mod Transaction
mod Wrapper
