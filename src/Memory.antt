-- ===== src/Memory.antt =====
-- The kernel's memory in crates/ferric-unsafe-core/src: the heap allocator, and the functions on bytes.
pub mod Heap
pub mod Copy
