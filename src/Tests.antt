-- ===== src/Tests.antt =====
-- Concrete inputs on which the theorems are applied.
mod Print
mod Sample
mod Ribs
mod Witnesses
mod Links
mod Machines
mod Runs
mod Streams
mod Threads
mod Networks
