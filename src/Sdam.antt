-- ===== src/Sdam.antt =====
-- lib/sdam: server discovery and monitoring.
pub mod ServerDescription
pub mod TopologyDescription
pub mod Topology
pub mod Selecting
pub mod Writing
pub mod Selectors
pub mod Examples
