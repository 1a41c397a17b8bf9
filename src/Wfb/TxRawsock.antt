-- ===== src/Wfb/TxRawsock.antt =====
-- The stream sender, libwfb/wfb_tx_rawsock.c: its state. The children hold its functions.
pub mod Header
pub mod Block
pub mod Stream
pub mod Init
use rhex_service.Base.{ℕ, List}
use rhex_service.Base.Int.{ℤ}
use rhex_service.Wfb.Packet.{PacketBuffer}
use rhex_service.Wfb.Io.{Io}

-- wfb_tx_t, of which the stream uses the sockets and the counters
pub record WfbTx : Type 0 where
  pub sock : List ℕ
  pub count : ℕ
  pub pcnt : ℕ

-- input_buffer_t
pub record InputBuffer : Type 0 where
  pub seq_nr : ℕ
  pub curr_pb : ℕ
  pub pbl : List PacketBuffer

-- wfb_stream_t
pub record WfbStream : Type 0 where
  pub wfb_tx : WfbTx
  pub phdr_len : ℕ
  pub input_buffer : InputBuffer
  pub buf : List ℕ

-- A stream, the static variables of the file, and the world outside.
pub record Sender : Type 0 where
  pub stream : WfbStream
  pub skipfec : ℤ
  pub block_cnt : ℕ
  pub took_last : ℕ
  pub took : ℕ
  pub injection_time_now : ℕ
  pub injection_time_prev : ℕ
  pub io : Io
