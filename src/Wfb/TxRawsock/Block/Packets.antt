-- ===== src/Wfb/TxRawsock/Block/Packets.antt =====
-- One packet of `pb_transmit_packet`: the frame that it writes.
use rhex_service.Base.{ℕ, ◌+◌, ◌%◌, ◌^◌, ◌≤◌, ◌≡◌, refl, ap, ◌∙◌}
use rhex_service.Base.{List, [], ◌∷◌, ◌++◌, append_assoc, arith}
use rhex_service.Base.{length, take, memcpy, le32, length-take, length-memcpy}
use rhex_service.Base.{take-memcpy, take-memcpy_before}
use rhex_service.Wfb.Io.{Io, Env, write_all}
use rhex_service.Wfb.TxRawsock.{Sender}
use rhex_service.Wfb.TxRawsock.Block.{pb_transmit_packet}

-- A stream over one adapter, its radio header of `h` bytes and its frame buffer allocated.
pub record OnLink (h k : ℕ) (s : Sender) : Type 0 where
  pub header : s.stream.phdr_len ≡ h
  pub room : h + 1028 ≤ 4192
  pub allocated : length s.stream.buf ≡ 4192
  pub one_sock : take s.stream.wfb_tx.count s.stream.wfb_tx.sock ≡ k ∷ []

-- It depends on the stream alone.
pub OnLink-same : {h k : ℕ} {s s' : Sender} → s'.stream ≡ s.stream → OnLink h k s → OnLink h k s'
OnLink-same e v = record {
  header = ap (λ t. t.phdr_len) e ∙ v.header;
  room = v.room;
  allocated = ap (λ t. length t.buf) e ∙ v.allocated;
  one_sock = ap (λ t. take t.wfb_tx.count t.wfb_tx.sock) e ∙ v.one_sock;
}

module _ (env : Env) where
  -- The frame is handed to the one socket whether the write fails or not.
  write_all_one :
      (k : ℕ) (frame : List ℕ) (io : Io)
      → (write_all env (k ∷ []) frame io).1.frames
        ≡ io.frames ++ (record { sock = k; bytes = frame } ∷ [])
  unfolding write_all
  write_all_one k frame io = ground arith

  module _ (h k : ℕ) (s : Sender) (v : OnLink h k s) (n : ℕ) (block : List ℕ)
      (hb : 1024 ≤ length block) where
    seq_copied : List ℕ
    seq_copied = memcpy s.stream.buf h (le32 (n % 2 ^ 32))

    length_block : length (take 1024 block) ≡ 1024
    length_block = omega (arith, length-take 1024 block)

    -- The frame: the radio header, the sequence number and the packet.
    frame_bytes :
        take (1024 + h + 4) (memcpy seq_copied (h + 4) (take 1024 block))
        ≡ take h s.stream.buf ++ (le32 (n % 2 ^ 32) ++ take 1024 block)
    unfolding seq_copied
    frame_bytes =
        ap (λ m. take m (memcpy seq_copied (h + 4) (take 1024 block))) {x = 1024 + h + 4}
          {y = h + 4 + length (take 1024 block)} (omega (arith, length_block))
        ∙ take-memcpy seq_copied (h + 4) (take 1024 block) (
            omega (
              arith,
              length_block,
              length-memcpy s.stream.buf h (le32 (n % 2 ^ 32)),
              v.allocated,
              v.room,
            ))
        ∙ ap (λ p. p ++ take 1024 block)
            (take-memcpy s.stream.buf h (le32 (n % 2 ^ 32)) (omega (arith, v.allocated, v.room)))
        ∙ append_assoc (take h s.stream.buf) (le32 (n % 2 ^ 32)) (take 1024 block)

    header_kept : take h (memcpy seq_copied (h + 4) (take 1024 block)) ≡ take h s.stream.buf
    unfolding seq_copied
    header_kept =
        take-memcpy_before h seq_copied (h + 4) (take 1024 block) (omega arith)
        ∙ take-memcpy_before h s.stream.buf h (le32 (n % 2 ^ 32)) (omega arith)

    -- What a packet's transmission does, with the writes' outcome left open.
    pub frames-pb_transmit_packet :
        (pb_transmit_packet env s n block 1024).1.io.frames
        ≡ s.io.frames
          ++ (record {
            sock = k;
            bytes = take h s.stream.buf ++ (le32 (n % 2 ^ 32) ++ take 1024 block);
          }
              ∷ [])
    unfolding pb_transmit_packet seq_copied
    frames-pb_transmit_packet = rw (v.header, v.one_sock, frame_bytes) (write_all_one k _ s.io)

    pub pb_transmit_packet-OnLink : OnLink h k (pb_transmit_packet env s n block 1024).1
    unfolding pb_transmit_packet
    pb_transmit_packet-OnLink = record {
      header = v.header;
      room = v.room;
      allocated =
          length-memcpy _ _ (take 1024 block)
          ∙ length-memcpy s.stream.buf _ (le32 (n % 2 ^ 32))
          ∙ v.allocated;
      one_sock = v.one_sock;
    }

    pub input_buffer-pb_transmit_packet :
        (pb_transmit_packet env s n block 1024).1.stream.input_buffer ≡ s.stream.input_buffer
    unfolding pb_transmit_packet
    input_buffer-pb_transmit_packet = refl

    -- The radio header stays in front of the frame buffer.
    pub header-pb_transmit_packet :
        take h (pb_transmit_packet env s n block 1024).1.stream.buf ≡ take h s.stream.buf
    unfolding pb_transmit_packet seq_copied
    header-pb_transmit_packet = rw v.header header_kept
