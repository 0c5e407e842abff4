-- ===== src/Cache.antt =====
-- engine/internal/manager/scheduler/cache: the label index and the cluster cache.
pub mod Indexer
pub mod Requests
pub mod Store
pub mod Consistency
pub mod Histories
pub mod Accounting
pub mod Assuming
