-- ===== src/Models.antt =====
-- The data of the events processor and its stores (events-processor/models/).
pub mod BillableMetric
pub mod Subscription
pub mod FlatFilter
pub mod Event
pub mod ApiStore
pub mod ChargeCache
pub mod Matching
pub mod Column
pub mod Stores
