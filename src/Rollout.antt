-- ===== src/Rollout.antt =====
-- engine/internal/manager/application: how a rollout is spread over the clusters, and what it reports.
pub mod Calculator
pub mod Reports
