-- ===== src/Wfb/TxRawsock/Block.antt =====
-- `pb_transmit_packet` and `pb_transmit_block` of libwfb/wfb_tx_rawsock.c.
-- `pbl` and `seq_nr` are pointers into the stream's own input buffer, as in the only call.
pub mod Packets
pub mod Sent
pub mod Whole
pub mod Places
use rhex_service.Base.{ℕ, ◌+◌, ◌-◌, ◌*◌, ◌%◌, ◌^◌, List, [], ◌∷◌, map}
use rhex_service.Base.{ltb, ◌==◌, if◌then◌else◌, take, memcpy, le32}
use rhex_service.Base.Int.{pos, pred_ℤ, ltb_ℤ}
use rhex_service.Wfb.Packet.{PacketBuffer, sizeof_wifi_packet_header}
use rhex_service.Wfb.Io.{Env, write_all, svc_get_monotime}
use rhex_service.Wfb.TxRawsock.{InputBuffer, WfbStream, Sender}

-- The variables of the sending loop.
pub record Loop : Type 0 where
  pub sender : Sender
  pub seq_nr_tmp : ℕ
  pub counterfec : ℕ

unfoldable pub count_skip : Loop → Loop
count_skip l = record l { sender = record (l.sender) { skipfec = pred_ℤ l.sender.skipfec } }

abbrev pub reset_len : PacketBuffer → PacketBuffer
reset_len p = record p { len = 0 }

-- The number of the next block and the packet buffers emptied.
unfoldable pub finish_block : ℕ → Sender → Sender
finish_block packets s =
    let input : InputBuffer = s.stream.input_buffer in
    let next : InputBuffer = record input {
      seq_nr = (input.seq_nr + packets) % 2 ^ 32;
      pbl = map reset_len input.pbl;
    } in
    record s { stream = record (s.stream) { input_buffer = next } }

module _ (env : Env) where
  -- 1 when a write failed, else 0. The sequence number is a `uint32_t`.
  unfoldable pub pb_transmit_packet : Sender → ℕ → List ℕ → ℕ → ℕ × Sender
  pb_transmit_packet s seq_nr packet_data packet_length =
      let stream : WfbStream = s.stream in
      let with_seq = memcpy stream.buf stream.phdr_len (le32 (seq_nr % 2 ^ 32)) in
      let buf =
        memcpy with_seq (stream.phdr_len + sizeof_wifi_packet_header)
          (take packet_length packet_data) in
      let plen : ℕ = packet_length + stream.phdr_len + sizeof_wifi_packet_header in
      let (result, io) =
        write_all env (take stream.wfb_tx.count stream.wfb_tx.sock) (take plen buf) s.io in
      (result, record s { stream = record stream { buf = buf }; io = io })

  module _ (packet_length : ℕ) where
    unfoldable pub send_data : List ℕ → Loop → Loop
    send_data block l =
        let (result, s) = pb_transmit_packet l.sender l.seq_nr_tmp block packet_length in
        record l { sender = s; seq_nr_tmp = l.seq_nr_tmp + 1 }

    -- While `skipfec` is positive every second FEC packet is left out; its number is used up.
    unfoldable pub send_fec : List ℕ → Loop → Loop
    send_fec block l =
        let (result, s) = pb_transmit_packet l.sender l.seq_nr_tmp block packet_length in
        let seq : ℕ = l.seq_nr_tmp + 1 in
        if ltb_ℤ l.sender.skipfec (pos 1)
        then record l { sender = s; seq_nr_tmp = seq }
        else if (l.counterfec % 2) == 0
        then record l { sender = s; seq_nr_tmp = seq; counterfec = l.counterfec + 1 }
        else record l { seq_nr_tmp = seq; counterfec = l.counterfec + 1 }

    -- One data packet and one FEC packet in turn, as long as there are any.
    unfoldable pub send_interleaved : List (List ℕ) → List (List ℕ) → Loop → Loop
    send_interleaved [] [] l = l
    send_interleaved [] (f ∷ fs) l = send_interleaved [] fs (count_skip (send_fec f l))
    send_interleaved (d ∷ ds) [] l = send_interleaved ds [] (count_skip (send_data d l))
    send_interleaved (d ∷ ds) (f ∷ fs) l =
        send_interleaved ds fs (count_skip (send_fec f (send_data d l)))

  -- What follows the loop while `param_measure` is 0, as it always is: the time the block took
  -- against 1 / 1.5 microseconds a byte, and the largest time kept over 220 units.
  unfoldable pub measure_block : ℕ → ℕ → Sender → Sender
  measure_block prev_time sent_bytes s =
      let (now, io1) = svc_get_monotime env s.io in
      let took : ℕ = (now + 2 ^ 64 - prev_time) % 2 ^ 64 in
      let skipfec = if ltb (2 * sent_bytes) (3 * took) then pos 4 else s.skipfec in
      let kept : ℕ = if ltb took s.took then s.took else took in
      let (inj_now, io2) = svc_get_monotime env io1 in
      let (inj_prev, io3) = svc_get_monotime env io2 in
      let s' : Sender = record s {
        block_cnt = s.block_cnt + 1;
        took_last = s.took;
        took = kept;
        skipfec = skipfec;
        injection_time_now = inj_now;
        io = io2;
      } in
      if ltb 220 ((inj_now + 2 ^ 64 - s.injection_time_prev) % 2 ^ 64)
      then record s' { injection_time_prev = inj_prev; took = 0; took_last = 0; io = io3 }
      else s'

  unfoldable pub pb_transmit_block : ℕ → ℕ → ℕ → Sender → Sender
  pb_transmit_block packet_length data_packets_per_block fec_packets_per_block s =
      let input : InputBuffer = s.stream.input_buffer in
      let data_blocks = map (λ p. p.bytes) (take data_packets_per_block input.pbl) in
      let fec_blocks =
        if fec_packets_per_block == 0
        then []
        else env.fec_encode packet_length data_blocks fec_packets_per_block in
      let (prev_time, io) = svc_get_monotime env s.io in
      let l =
        send_interleaved packet_length data_blocks fec_blocks
          (record { sender = record s { io = io }; seq_nr_tmp = input.seq_nr; counterfec = 0 }) in
      let packets : ℕ = data_packets_per_block + fec_packets_per_block in
      finish_block packets (measure_block prev_time (packet_length * packets) l.sender)
