-- ===== src/World.antt =====
-- internal/world: the map of sectors and gates, and the router over it.
pub mod Topology
pub mod Router
