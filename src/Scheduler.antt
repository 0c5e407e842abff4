-- ===== src/Scheduler.antt =====
-- engine/internal/manager/scheduler/scheduler.go and event_handler.go.
pub mod Prefilter
pub mod Waterfill
pub mod Slices
pub mod Spread
pub mod Setup
pub mod Single
pub mod Events
pub mod Cycle
