-- ===== src/Ground.antt =====
-- The ground station, rhex_ground.
pub mod TelemetryRx
pub mod CommandsTx
pub mod Reports
pub mod Control
pub mod Mavlink
