-- ===== src/Plugins.antt =====
-- engine/internal/manager/scheduler/plugins: the filter and score plugins.
pub mod Affinity
pub mod Taint
pub mod Health
pub mod Volume
pub mod Capacity
pub mod Resource
pub mod Topology
