-- ===== src/Tests.antt =====
-- The theorems at concrete inputs.
pub mod Data
mod Commit
mod Values
mod Filters
mod Json
mod Partition
mod Processing
mod Environment
mod Group
mod Sending
mod Startup
mod Tracing
