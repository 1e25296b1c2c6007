-- ===== src/Sync.antt =====
-- The primitives of crates/ferric-unsafe-core/src/sync.rs as steps of threads over shared memory.
-- Each step is one atomic operation, or one access to the value; threads interleave in any order.
pub mod Threads
pub mod Spinlock
pub mod OnceLock
