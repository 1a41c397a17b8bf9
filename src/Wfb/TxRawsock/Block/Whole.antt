-- ===== src/Wfb/TxRawsock/Block/Whole.antt =====
-- `pb_transmit_block` as a whole: what it sends and how it leaves the sender.
use rhex_service.Base.{ℕ, ◌+◌, ◌*◌, ◌%◌, ◌^◌, ◌≤◌, ◌≡◌, refl, ap, List, ◌++◌, map}
use rhex_service.Base.{length, take, All, inl, arith, take_all, length-take, length-map, All-map}
use rhex_service.Wfb.Packet.{PacketBuffer}
use rhex_service.Wfb.Io.{Env, svc_get_monotime}
use rhex_service.Wfb.Handed.{handed}
use rhex_service.Wfb.TxRawsock.{InputBuffer, Sender}
use rhex_service.Wfb.TxRawsock.Block.{
  Loop, reset_len, send_interleaved, measure_block, finish_block, pb_transmit_block,
}
use rhex_service.Wfb.TxRawsock.Block.Packets.{OnLink, OnLink-same}
use rhex_service.Wfb.TxRawsock.Block.Sent.{
  IsLong, HasSent, HasSent-same, sent_payloads, send_interleaved-At,
}

-- fec_encode() fills as many blocks as it is asked for, each of the block length.
abbrev pub FillsBlocks : Env → Type 0
FillsBlocks env =
    (blocks : List (List ℕ))
    → (length (env.fec_encode 1024 blocks 4) ≡ 4) × All IsLong (env.fec_encode 1024 blocks 4)

-- The sender after a block: the packet buffers emptied, the next block's number.
abbrev pub input_after : InputBuffer → InputBuffer
input_after input = record input {
  seq_nr = (input.seq_nr + 12) % 2 ^ 32;
  pbl = map reset_len input.pbl;
}

module _ (env : Env) (h k : ℕ) where
  measure_block_same :
      (prev bytes : ℕ) (s : Sender)
      → ((measure_block env prev bytes s).stream ≡ s.stream)
        × ((measure_block env prev bytes s).io.frames ≡ s.io.frames)
  unfolding measure_block
  measure_block_same prev bytes s = ground arith

  finish_block-OnLink : (n : ℕ) (s : Sender) → OnLink h k s → OnLink h k (finish_block n s)
  unfolding finish_block
  finish_block-OnLink n s v = record {
    header = v.header;
    room = v.room;
    allocated = v.allocated;
    one_sock = v.one_sock;
  }

  module _ (s : Sender) (link : OnLink h k s) (fills : FillsBlocks env) where
    abbrev input : InputBuffer
    input = s.stream.input_buffer

    -- pb_transmit_block on eight long packet buffers, with an aligned sequence number that has room
    -- for twelve more, hands their payloads to write() in order and no other stream bytes, empties
    -- the buffers and moves the sequence number on by twelve, whether writes fail or not, for a
    -- stream on one adapter and an encoder that fills its blocks.
    pub pb_transmit_block_lem :
        length input.pbl ≡ 8
        → All (λ p. IsLong p.bytes) input.pbl
        → input.seq_nr % 12 ≡ 0
        → input.seq_nr + 12 ≤ 2 ^ 32
        → let s' = pb_transmit_block env 1024 8 4 s in
          OnLink h k s'
          × (s'.stream.input_buffer ≡ input_after input)
          × (handed h s'.io.frames
              ≡ handed h s.io.frames ++ sent_payloads (map (λ p. p.bytes) input.pbl))
    unfolding pb_transmit_block finish_block
    pb_transmit_block_lem eight long aligned fits = (
      finish_block-OnLink 12 _ measured.link,
      ap (λ t. input_after t) measured.input_kept,
      measured.sent,
    )
      where
        blocks : List (List ℕ)
        blocks = map (λ p. p.bytes) input.pbl

        fecs : List (List ℕ)
        fecs = env.fec_encode 1024 blocks 4

        hdr : List ℕ
        hdr = take h s.stream.buf

        hh : length hdr ≡ h
        hh = omega (arith, length-take h s.stream.buf, link.allocated, link.room)

        start : Loop
        start = record {
          sender = record s { io = (svc_get_monotime env s.io).1 };
          seq_nr_tmp = input.seq_nr;
          counterfec = 0;
        }

        sent :
            HasSent env h k hdr hh input
              (send_interleaved env 1024 blocks fecs start).sender
              (handed h s.io.frames ++ sent_payloads blocks)
        sent =
            send_interleaved-At env h k hdr hh input blocks fecs start input.seq_nr
              (handed h s.io.frames) (All-map IsLong (λ p. p.bytes) input.pbl long) (fills blocks).1
              (
                omega (
                  arith,
                  length-map (λ (p : PacketBuffer). p.bytes) input.pbl,
                  eight,
                  aligned,
                  (fills blocks).0,
                ),
                omega (
                  arith,
                  length-map (λ (p : PacketBuffer). p.bytes) input.pbl,
                  eight,
                  (fills blocks).0,
                ),
                inl (
                    omega (
                      arith,
                      length-map (λ (p : PacketBuffer). p.bytes) input.pbl,
                      eight,
                      (fills blocks).0,
                    )),
              )
              (omega (
                arith,
                length-map (λ (p : PacketBuffer). p.bytes) input.pbl,
                eight,
                fits,
                (fills blocks).0,
              ))
              (record {
                state = record {
                  link = OnLink-same refl link;
                  header = refl;
                  input_kept = refl;
                  sent = refl;
                };
                number = refl;
              })

        measured :
            HasSent env h k hdr hh input
              (measure_block env
                (svc_get_monotime env s.io).0
                (1024 * (8 + 4))
                (send_interleaved env 1024
                  (map (λ p. p.bytes) (take 8 input.pbl))
                  (env.fec_encode 1024 (map (λ p. p.bytes) (take 8 input.pbl)) 4)
                  start).sender)
              (handed h s.io.frames ++ sent_payloads blocks)
        measured = rw (take_all 8 input.pbl (omega (arith, eight))) (
            HasSent-same env h k hdr hh input (measure_block_same _ _ _).0
              (measure_block_same _ _ _).1 sent)
