-- ===== src/Video.antt =====
-- The parts of crates/ferric-unsafe-core that draw.
pub mod Framebuffer
pub mod Font
