-- ===== src/Wfb/RxRawsock.antt =====
-- The stream receiver, libwfb/wfb_rx_rawsock.c: its state. The children hold its functions.
pub mod Decode
pub mod Receive
pub mod Interface
use rhex_service.Base.{ℕ, List, Bool}
use rhex_service.Base.Int.{ℤ}
use rhex_service.Wfb.Packet.{PacketBuffer}

-- block_buffer_t; the block number of an unused buffer is -1.
pub record BlockBuffer : Type 0 where
  pub block_num : ℤ
  pub packet_buffer_list : List PacketBuffer

-- wifi_adapter_rx_status_t, less the type of the card
pub record WifiAdapterRxStatus : Type 0 where
  pub received_packet_cnt : ℕ
  pub wrong_crc_cnt : ℕ
  pub current_signal_dbm : ℤ
  pub signal_good : ℕ

-- wifibroadcast_rx_status_t, less what `process_payload` does not touch
pub record WifibroadcastRxStatus : Type 0 where
  pub received_block_cnt : ℕ
  pub damaged_block_cnt : ℕ
  pub lost_packet_cnt : ℕ
  pub received_packet_cnt : ℕ
  pub lost_per_block_cnt : ℕ
  pub tx_restart_cnt : ℕ
  pub kbitrate : ℕ
  pub adapter : List WifiAdapterRxStatus

-- wfb_rx_stream_packet_t; `store` is its array `data`.
pub record WfbRxStreamPacket : Type 0 where
  pub bytes : ℕ
  pub store : List ℕ

-- struct payload_data_t; `bytes` is what the pointer `data` points to.
pub record PayloadData : Type 0 where
  pub bytes : List ℕ
  pub size : ℕ
  pub crc_ok : Bool

-- What `process_payload` reads and writes of wfb_rx_stream_t, with the static variables of the
-- file, the stream packet that it fills, and the number of clock reads so far.
pub record Receiver : Type 0 where
  pub block_buffer_list : List BlockBuffer
  pub bytes_decoded : ℕ
  pub rx_status : WifibroadcastRxStatus
  pub max_block_num : ℤ
  pub prev_time : ℕ
  pub now : ℕ
  pub pm_prev_time : ℕ
  pub pm_now : ℕ
  pub packets_missing : ℕ
  pub packets_missing_last : ℕ
  pub rx_data : WfbRxStreamPacket
  pub clock_reads : ℕ

-- What the environment answers: the n-th svc_get_monotime(), and fec_decode(): the block length,
-- the data blocks, the FEC blocks used, their numbers, and the erased blocks give the new data blocks.
pub record RxEnv : Type 0 where
  pub monotime : ℕ → ℕ
  pub fec_decode : ℕ → List (List ℕ) → List (List ℕ) → List ℕ → List ℕ → List (List ℕ)
