-- ===== src/Wfb/TxRawsock/Stream.antt =====
-- `wfb_tx_stream` of libwfb/wfb_tx_rawsock.c: the stream is cut into packets, and the packets
-- into blocks.
pub mod Packing
pub mod WellFormed
pub mod Blocks
pub mod Steps
pub mod Lossless
use rhex_service.Base.{ℕ, zero, suc, ◌+◌, ◌-◌, ◌%◌, ◌^◌, List, [], Bool, true, false}
use rhex_service.Base.{ltb, leb, ◌==◌, if◌then◌else◌, take, drop, get_or, set, memcpy, le32}
use rhex_service.Wfb.Packet.{
  PacketBuffer, param_data_packets_per_block, param_fec_packets_per_block, param_packet_length,
  sizeof_payload_header,
}
use rhex_service.Wfb.Io.{Env}
use rhex_service.Wfb.TxRawsock.{WfbTx, InputBuffer, Sender}
use rhex_service.Wfb.TxRawsock.Block.{pb_transmit_block}

abbrev pub param_min_packet_length : ℕ
param_min_packet_length = 24

abbrev pub no_packet : PacketBuffer
no_packet = record { valid = false; crc_correct = false; len = 0; bytes = [] }

-- `len - offset` bytes are left; as many are copied as the packet has room for.
unfoldable pub copy_len : ℕ → ℕ → ℕ
copy_len left pb_len =
    if ltb (param_packet_length - pb_len) left then param_packet_length - pb_len else left

-- A fresh packet gets room for its payload header, then the next bytes.
unfoldable pub fill_packet : PacketBuffer → List ℕ → ℕ → ℕ → PacketBuffer × ℕ
fill_packet pb input len offset =
    let start : ℕ = if pb.len == 0 then pb.len + sizeof_payload_header else pb.len in
    let n : ℕ = copy_len (len - offset) start in
    (
      record pb { len = start + n; bytes = memcpy pb.bytes start (take n (drop offset input)) },
      (offset + n) % 2 ^ 16,
    )

-- The payload header is written when the packet is finished.
unfoldable pub close_packet : PacketBuffer → PacketBuffer
close_packet pb = record pb {
  bytes = memcpy pb.bytes 0 (le32 ((pb.len - sizeof_payload_header) % 2 ^ 32));
}

unfoldable pub put_packet : Sender → PacketBuffer → Sender
put_packet s pb =
    let input : InputBuffer = s.stream.input_buffer in
    record s {
      stream = record (s.stream) {
        input_buffer = record input { pbl = set input.pbl input.curr_pb pb };
      };
    }

unfoldable pub count_packet : Sender → Sender
count_packet s =
    let tx : WfbTx = s.stream.wfb_tx in
    record s { stream = record (s.stream) { wfb_tx = record tx { pcnt = (tx.pcnt + 1) % 2 ^ 64 } } }

unfoldable pub set_curr_pb : ℕ → Sender → Sender
set_curr_pb i s =
    let input : InputBuffer = s.stream.input_buffer in
    record s { stream = record (s.stream) { input_buffer = record input { curr_pb = i } } }

module _ (env : Env) where
  -- A finished packet: the block is sent when it was the block's last.
  unfoldable pub next_packet : Sender → Sender
  next_packet s =
      if s.stream.input_buffer.curr_pb == (param_data_packets_per_block - 1)
      then set_curr_pb 0 (
          pb_transmit_block env param_packet_length param_data_packets_per_block
            param_fec_packets_per_block s)
      else set_curr_pb (s.stream.input_buffer.curr_pb + 1) s

  -- The body of the loop, with the new offset.
  unfoldable pub tx_step : Sender → List ℕ → ℕ → ℕ → Sender × ℕ
  tx_step s input len offset =
      let ib : InputBuffer = s.stream.input_buffer in
      let (pb, offset') = fill_packet (get_or ib.pbl ib.curr_pb no_packet) input len offset in
      if leb param_min_packet_length pb.len
      then (next_packet (count_packet (put_packet s (close_packet pb))), offset')
      else (put_packet s pb, offset')

  -- `do ... while (offset < len)`; the Boolean is false when the fuel is used up.
  unfoldable pub tx_loop : ℕ → Sender → List ℕ → ℕ → ℕ → Sender × Bool
  tx_loop zero s input len offset = (s, false)
  tx_loop (suc fuel) s input len offset =
      let (s', offset') = tx_step s input len offset in
      elim (ltb offset' len) [ true ↦ tx_loop fuel s' input len offset' | false ↦ (s', true) ]

  -- The Boolean says that the loop has ended. A round that is not the last copies a byte at least.
  unfoldable pub wfb_tx_stream : Sender → List ℕ → ℕ → Sender × Bool
  wfb_tx_stream s input len = tx_loop (len + 1) s input len 0
