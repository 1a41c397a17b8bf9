-- ===== src/Svc.antt =====
-- The service library, libsvc: the memory that the processes share.
pub mod SharedMem
pub mod Process
