-- ===== src/Portal.antt =====
-- The portal's API server, apiserver/pkg.
pub mod Permissions
pub mod Limiter
