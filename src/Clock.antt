-- ===== src/Clock.antt =====
-- The clock window: crates/ferric-safe-core/src/clock_app.rs and crates/ferric-unsafe-core/src/app.rs.
pub mod Surface
pub mod Window
