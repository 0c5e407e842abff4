-- ===== src/Api.antt =====
-- The objects that the control plane reads and writes, engine/pkg/apis, each with the fields that
-- the modelled code uses.
pub mod Floats
mod Quantities
mod Selectors
mod Clusters
mod Applications
pub use Quantities.*
pub use Selectors.*
pub use Clusters.*
pub use Applications.*
