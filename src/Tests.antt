-- ===== src/Tests.antt =====
-- The theorems at concrete inputs, and runs of the code.
mod Counters
mod Lives
mod Loops
mod Maps
mod Memory
mod Options
mod Rings
mod Scans
mod Sharing
mod Slots
mod Sources
mod StatLines
mod Tracers
mod Windows
