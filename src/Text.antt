-- ===== src/Text.antt =====
-- The text console: the cell grid and the kernel's console over it.
pub mod Grid
pub mod Console
pub mod LineEnds
