-- ===== src/Utils.antt =====
-- The helpers that the parts of the program share (events-processor/utils/).
pub mod Result
pub mod Float
pub mod Value
pub mod Time
pub mod Json
pub mod Env
pub mod ErrorTracker
