-- ===== src/Tests.antt =====
-- Runs of the modelled code at concrete inputs, and the theorems at inputs that meet their
-- hypotheses.
mod Input
mod Shell
mod Grid
mod Heap
mod Time
mod Console
mod Monitor
mod Video
mod Sync
mod Kernel
mod Cpu
mod Boot
mod Clock
