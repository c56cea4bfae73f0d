-- ===== src/Persist.antt =====
-- src/include/xpersist.h: a region of memory that is kept in a file, which a process changes in a private
-- mapping and commits page by page.
pub mod Mapping
pub mod PageSet
pub mod Region
pub mod Commit
pub mod Isolation
pub mod Publish
pub mod Restart
pub mod Writing
pub mod Interference
pub mod Construct
pub mod Built
