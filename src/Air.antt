-- ===== src/Air.antt =====
-- The services of the robot, rhex_air.
pub mod Motion
pub mod Commands
pub mod Reports
pub mod Crc
pub mod Gps
pub mod Sensors
