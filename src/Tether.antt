-- ===== src/Tether.antt =====
-- The tethering offload bridge, bridges/tetheroffload.
pub mod Flow
pub mod Backend
pub mod Neighbor
pub mod Checks
pub mod Policy
pub mod Api
pub mod Events
mod Device
mod Examples
