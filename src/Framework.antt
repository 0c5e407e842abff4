-- ===== src/Framework.antt =====
-- engine/internal/manager/scheduler/framework: the cycle state, the statuses, and the order in
-- which the plugins run.
mod Interface
mod Runtime
mod Config
pub mod Filtering
pub mod Normalize
pub mod Scoring
pub use Interface.*
unfoldable pub use Runtime.*
pub use Config.*
