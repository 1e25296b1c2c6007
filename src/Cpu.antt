-- ===== src/Cpu.antt =====
-- The processor's tables in crates/ferric-unsafe-core/src: segments and interrupt gates.
pub mod Segments
pub mod Gates
