-- ===== src/Boot.antt =====
-- What the loader hands over: crates/ferric-unsafe-core/src/limine.rs, and the heap that heap.rs installs
-- from it.
pub mod Limine
pub mod Arena
