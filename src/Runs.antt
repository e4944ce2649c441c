-- ===== src/Runs.antt =====
-- Concrete runs, and the theorems at concrete inputs.
mod Fixtures
mod Values
mod Wire
mod Operations
mod Checks
mod Contexts
mod Doubles
mod Threads
