-- ===== src/Tests.antt =====
-- Concrete runs of the theorems, and tests of the model on small inputs.
mod Tx
mod Rx
mod Packet
mod Shm
mod Telemetry
mod Log
mod Link
mod Commands
mod RxPacket
mod Motion
mod Crc
mod Control
mod Gps
mod Process
mod RxStream
mod Reports
mod Sensors
