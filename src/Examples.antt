-- ===== src/Examples.antt =====
-- Runs of the code at concrete inputs.
pub mod Data
mod Formats
mod Trees
mod Verified
mod Journals
mod Stores
mod Databases
mod Waits
mod Pools
mod Keys
mod Merging
mod Blocks
mod Stamping
mod Aggregating
