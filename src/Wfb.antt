-- ===== src/Wfb.antt =====
-- The wifi broadcast library, libwfb: the packet buffers it shares, the stream sender and receiver.
pub mod Packet
pub mod Io
pub mod Handed
pub mod TxRawsock
pub mod RxRawsock
pub mod RxStream
pub mod Link
pub mod TxPacket
pub mod RxPacket
