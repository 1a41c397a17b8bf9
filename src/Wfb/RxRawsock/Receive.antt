-- ===== src/Wfb/RxRawsock/Receive.antt =====
-- `block_buffer_list_reset` and `process_payload` of libwfb/wfb_rx_rawsock.c.
pub mod Steps
pub mod Filling
pub mod Block
use rhex_service.Base.{ℕ, zero, suc, ◌+◌, ◌-◌, ◌*◌, ◌/◌, ◌%◌, ◌^◌, List, [], ◌∷◌, map}
use rhex_service.Base.{
  Bool, true, false, not, ◌&&◌, ◌||◌, ltb, ◌==◌, if◌then◌else◌, Option, none, some,
}
use rhex_service.Base.{length, take, drop, get_or, set, memcpy, get_le32}
use rhex_service.Base.Int.{ℤ, pos, negsuc, ltb_ℤ, eq_ℤ}
use rhex_service.Wfb.Packet.{
  PacketBuffer, param_data_packets_per_block, param_fec_packets_per_block,
  sizeof_wifi_packet_header,
}
use rhex_service.Wfb.RxRawsock.{
  BlockBuffer, WifiAdapterRxStatus, WifibroadcastRxStatus, PayloadData, Receiver, RxEnv,
}
use rhex_service.Wfb.RxRawsock.Decode.{finish_packets}

abbrev pub packets_per_block : ℕ
packets_per_block = param_data_packets_per_block + param_fec_packets_per_block

abbrev pub no_packet : PacketBuffer
no_packet = record { valid = false; crc_correct = false; len = 0; bytes = [] }

abbrev pub no_block : BlockBuffer
no_block = record { block_num = negsuc 0; packet_buffer_list = [] }

abbrev pub reset_packet : PacketBuffer → PacketBuffer
reset_packet p = record p { valid = false; crc_correct = false; len = 0 }

unfoldable pub block_buffer_list_reset : List BlockBuffer → List BlockBuffer
block_buffer_list_reset [] = []
block_buffer_list_reset (b ∷ bs) =
    record { block_num = negsuc 0; packet_buffer_list = map reset_packet b.packet_buffer_list }
    ∷ block_buffer_list_reset bs

unfoldable pub reset_adapter : WifiAdapterRxStatus → WifiAdapterRxStatus
reset_adapter a = record a {
  received_packet_cnt = 0;
  wrong_crc_cnt = 0;
  current_signal_dbm = negsuc 125;
  signal_good = 0;
}

-- A transmitter that was started again: the counters and the block buffers begin anew.
unfoldable pub restart : Receiver → Receiver
restart rx =
    let st : WifibroadcastRxStatus = rx.rx_status in
    record rx {
      rx_status = record st {
        tx_restart_cnt = (st.tx_restart_cnt + 1) % 2 ^ 32;
        received_block_cnt = 0;
        damaged_block_cnt = 0;
        received_packet_cnt = 0;
        lost_packet_cnt = 0;
        kbitrate = 0;
        adapter = map reset_adapter st.adapter;
      };
      block_buffer_list = block_buffer_list_reset rx.block_buffer_list;
    }

-- The index of the buffer with the least block number, of those from index `i` on.
unfoldable pub find_min : List BlockBuffer → ℕ → ℤ → ℕ → ℕ
find_min [] i least idx = idx
find_min (b ∷ bs) i least idx =
    find_min bs (i + 1) (if ltb_ℤ b.block_num least then b.block_num else least)
      (if ltb_ℤ b.block_num least then i else idx)

unfoldable pub set_block : ℕ → BlockBuffer → Receiver → Receiver
set_block i b rx = record rx { block_buffer_list = set rx.block_buffer_list i b }

-- The index of the buffer of a block, if there is one.
unfoldable pub find_block : ℕ → List BlockBuffer → ℕ → Option ℕ
find_block block_num [] i = none
find_block block_num (b ∷ bs) i =
    let rest = find_block block_num bs (i + 1) in
    if eq_ℤ b.block_num (pos block_num) then some i else rest

-- `data_len` is `pd->size` less the header, as a `size_t`.
unfoldable pub store_packet : PayloadData → PacketBuffer → PacketBuffer
store_packet pd p =
    let data_len : ℕ = (pd.size + 2 ^ 64 - sizeof_wifi_packet_header) % 2 ^ 64 in
    if p.crc_correct then p else record {
      valid = true;
      crc_correct = pd.crc_ok;
      len = data_len;
      bytes = memcpy p.bytes 0 (take data_len (drop sizeof_wifi_packet_header pd.bytes));
    }

unfoldable pub store_in_block : ℕ → PayloadData → BlockBuffer → BlockBuffer
store_in_block packet_num pd b = record b {
  packet_buffer_list =
      set b.packet_buffer_list packet_num
        (store_packet pd (get_or b.packet_buffer_list packet_num no_packet));
}

-- The packet is stored in the buffer of its block, if there is one.
unfoldable pub put_in_place : ℕ → ℕ → PayloadData → Receiver → Receiver
put_in_place block_num packet_num pd rx = elim (find_block block_num rx.block_buffer_list 0) [
  | none ↦ rx
  | some i ↦ set_block i (store_in_block packet_num pd (get_or rx.block_buffer_list i no_block)) rx
]

module _ (env : RxEnv) where
  -- Room for a new block: the oldest one is delivered and its buffer is reset.
  unfoldable pub replace_block : ℕ → Receiver → Receiver
  replace_block block_num rx =
      let idx : ℕ = find_min rx.block_buffer_list 0 (pos (2 ^ 31 - 1)) 0 in
      let b : BlockBuffer = get_or rx.block_buffer_list idx no_block in
      let done =
        if eq_ℤ b.block_num (negsuc 0)
        then set_block idx (record b { block_num = pos block_num }) rx
        else set_block idx
            (record {
              block_num = pos block_num;
              packet_buffer_list = map reset_packet b.packet_buffer_list;
            })
            (finish_packets env b.packet_buffer_list rx) in
      record done { max_block_num = pos block_num }

  -- A good packet of a later block, or of one far back, gets a buffer for its block.
  unfoldable pub make_room : ℕ → PayloadData → Receiver → Receiver
  make_room block_num pd rx =
      let tx_restart = ltb_ℤ (pos (block_num + 128)) rx.max_block_num in
      if (ltb_ℤ rx.max_block_num (pos block_num) || tx_restart) && pd.crc_ok
      then replace_block block_num (if tx_restart then restart rx else rx)
      else rx

  -- `process_payload` behind the block number and the place in the block of the packet.
  unfoldable pub process_numbered : ℕ → ℕ → PayloadData → Receiver → Receiver
  process_numbered block_num packet_num pd rx =
      put_in_place block_num packet_num pd (make_room block_num pd rx)

  -- The sequence number has less than 2^32 values, so the block number fits an `int`.
  unfoldable pub process_payload : PayloadData → Receiver → Receiver
  process_payload pd rx =
      let sequence_number : ℕ = get_le32 pd.bytes 0 in
      process_numbered (sequence_number / packets_per_block) (sequence_number % packets_per_block)
        pd rx
