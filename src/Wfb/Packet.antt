-- ===== src/Wfb/Packet.antt =====
-- The packet buffers and the stream parameters that libwfb/wfb_tx_rawsock.c and
-- libwfb/wfb_rx_rawsock.c both declare.
use rhex_service.Base.{ℕ, ◌-◌, Bool, List, slice}

-- packet_buffer_t; `bytes` is what the pointer `data` points to.
pub record PacketBuffer : Type 0 where
  pub valid : Bool
  pub crc_correct : Bool
  pub len : ℕ
  pub bytes : List ℕ

abbrev pub param_data_packets_per_block : ℕ
param_data_packets_per_block = 8

abbrev pub param_fec_packets_per_block : ℕ
param_fec_packets_per_block = 4

abbrev pub param_packet_length : ℕ
param_packet_length = 1024

abbrev pub max_packet_length : ℕ
max_packet_length = 4192

-- sizeof(wifi_packet_header_t) and sizeof(payload_header_t)
abbrev pub sizeof_wifi_packet_header : ℕ
sizeof_wifi_packet_header = 4

abbrev pub sizeof_payload_header : ℕ
sizeof_payload_header = 4

-- The stream bytes that a sender's packet buffer holds, behind its payload header.
abbrev pub payload : PacketBuffer → List ℕ
payload p = slice p.bytes sizeof_payload_header (p.len - sizeof_payload_header)
