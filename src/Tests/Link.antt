-- ===== src/Tests/Link.antt =====
-- A block of eight packets that carry the bytes 9, 9, 9, from the sender to the receiver.
use rhex_service.Base.{
  ℕ, ◌≡◌, refl, List, [], ◌∷◌, ◌++◌, map, arith, false, inl, inr, some, memcpy, All, subst,
  append_assoc,
}
use rhex_service.Base.{Bool, get_or, ◌==◌, ◌||◌}
use rhex_service.Wfb.Handed.{handed}
use rhex_service.Base.{All-replicate, replicate, length-replicate, length-append}
use rhex_service.Wfb.Packet.{PacketBuffer}
use rhex_service.Wfb.Io.{Env, Frame, write_all}
use rhex_service.Wfb.TxRawsock.{Sender}
use rhex_service.Wfb.TxRawsock.Init.{fresh_sender}
use rhex_service.Wfb.TxRawsock.Header.{radiotap_header, ieee_header}
use rhex_service.Wfb.TxRawsock.Block.{
  pb_transmit_packet, pb_transmit_block, send_data, send_fec, send_interleaved, count_skip,
  measure_block, finish_block,
}
use rhex_service.Wfb.TxRawsock.Block.Packets.{OnLink}
use rhex_service.Wfb.TxRawsock.Block.Sent.{IsLong, sent_payloads}
use rhex_service.Wfb.TxRawsock.Block.Whole.{FillsBlocks, input_after, pb_transmit_block_lem}
use rhex_service.Wfb.RxRawsock.Receive.Filling.{missing_places}
use rhex_service.Wfb.RxRawsock.{Receiver}
use rhex_service.Wfb.RxRawsock.Decode.Delivery.{IsPacket, delivered}
use rhex_service.Wfb.RxRawsock.Receive.{process_payload}
use rhex_service.Wfb.RxRawsock.Receive.Steps.{receiving, packet_of}
use rhex_service.Wfb.RxRawsock.Receive.Filling.{IsFree}
use rhex_service.Wfb.Link.{sent_part}
use rhex_service.Wfb.Link.Delivered.{
  Among, block_frames, place_of, receive_frames, stream_block_delivered,
}
use rhex_service.Tests.Rx.{
  nines, nines_env, free_packet, idle, free_packet-IsFree, nines-Recovers, nines-IsPacket,
  length-nines,
}

abbrev full_packet : PacketBuffer
full_packet = record {
  valid = false;
  crc_correct = false;
  len = 1024;
  bytes = nines ++ replicate 3168 0;
}

abbrev tx_env : Env
tx_env = record {
  monotime = λ n. n;
  write_fails = λ n. false;
  fec_encode = λ size blocks n. replicate 4 nines;
}

abbrev short_ieee : List ℕ
short_ieee = 8 ∷ 1 ∷ 0 ∷ 0 ∷ 11 ∷ []

abbrev full : Sender
full = fresh_sender (record {
  wfb_tx = record { sock = 3 ∷ []; count = 1; pcnt = 0 };
  phdr_len = 17;
  input_buffer = record { seq_nr = 48; curr_pb = 8; pbl = replicate 8 full_packet };
  buf = (radiotap_header 24 ++ short_ieee) ++ replicate 4175 0;
})

missing_none : missing_places (map (place_of 17) (block_frames tx_env full)) ≡ 0
unfolding memcpy write_all pb_transmit_packet pb_transmit_block send_data send_fec send_interleaved
    count_skip measure_block finish_block
missing_none = refl

full-OnLink : OnLink 17 3 full
full-OnLink = record {
  header = refl;
  room = omega arith;
  allocated = omega (
    arith,
    length-append (radiotap_header 24 ++ short_ieee) (replicate 4175 0),
    length-replicate {A = ℕ} 4175 0,
  );
  one_sock = refl;
}

-- Two of the twelve writes fail.
abbrev failing_env : Env
failing_env = record tx_env { write_fails = λ n. n == 2 || n == 7 }

failing_env_fills : FillsBlocks failing_env
failing_env_fills blocks = (refl, All-replicate IsLong 4 nines (omega (arith, length-nines)))

tx_env_fills : FillsBlocks tx_env
tx_env_fills blocks = (refl, All-replicate IsLong 4 nines (omega (arith, length-nines)))

full_packet-IsLong : IsLong full_packet.bytes
full_packet-IsLong =
    omega
      (arith, length-append nines (replicate 3168 0), length-nines, length-replicate {A = ℕ} 3168 0)

Among-self : (fs gs : List Frame) → All (λ f. Among f (fs ++ gs)) gs
Among-self fs [] = tt
Among-self fs (g ∷ gs) = (
  among_middle fs,
  subst (λ hs. All (λ f. Among f hs) gs) (append_assoc fs (g ∷ []) gs)
      (Among-self (fs ++ (g ∷ [])) gs),
)
  where
    among_middle : (hs : List Frame) → Among g (hs ++ (g ∷ gs))
    among_middle [] = inl refl
    among_middle (h ∷ hs) = inr (among_middle hs)

abbrev radio : List ℕ
radio = 0 ∷ 0 ∷ 8 ∷ 0 ∷ 32 ∷ 0 ∷ 0 ∷ 216 ∷ []

-- A parser that takes every header of version 0.
abbrev version_zero : List ℕ → Bool
version_zero frame = get_or frame 0 1 == 0

stream_block_delivered_example :
    (rx1 : Receiver) × (receive_frames version_zero nines_env radio 0
        (block_frames tx_env full)
        (receiving 4 (replicate 12 free_packet) idle)
      ≡ some rx1)
    × (delivered (process_payload nines_env (packet_of 5 0 nines) rx1)
        ≡ delivered idle
          ++ sent_payloads (map (λ (p : PacketBuffer). p.bytes) (replicate 8 full_packet)))
unfolding ieee_header
stream_block_delivered_example =
    stream_block_delivered radio short_ieee 24 0 5 refl tx_env full 3 refl version_zero nines_env 4
      5 0 0 nines (block_frames tx_env full) (replicate 12 free_packet) idle full-OnLink
      tx_env_fills (All-replicate (λ p. IsLong p.bytes) 8 full_packet full_packet-IsLong)
      (All-replicate (λ p. IsPacket (sent_part p.bytes)) 8 full_packet nines-IsPacket) refl refl
      refl (omega arith) (omega arith) (λ rest. refl) (Among-self [] (block_frames tx_env full))
      (omega (arith, missing_none)) nines-Recovers refl
      (All-replicate IsFree 12 free_packet free_packet-IsFree)
      (omega (arith, length-replicate {A = ℕ} 9000 0)) (omega arith) (omega arith) (omega arith)

pb_transmit_block_lem_example :
    let s' = pb_transmit_block failing_env 1024 8 4 full in
    OnLink 17 3 s'
    × (s'.stream.input_buffer ≡ input_after full.stream.input_buffer)
    × (handed 17 s'.io.frames
        ≡ handed 17 full.io.frames
          ++ sent_payloads (map (λ p. p.bytes) full.stream.input_buffer.pbl))
pb_transmit_block_lem_example =
    pb_transmit_block_lem failing_env 17 3 full full-OnLink failing_env_fills refl
      (All-replicate (λ p. IsLong p.bytes) 8 full_packet full_packet-IsLong) refl (omega arith)
