-- ===== src/Wfb/TxRawsock/Stream/Steps.antt =====
-- One round of the loop of `wfb_tx_stream`.
use rhex_service.Base.{ℕ, ◌+◌, ◌-◌, ◌^◌, ◌≤◌, ◌<◌, ◌≡◌, ◌⊎◌, refl, sym, ap, ap₂, ◌∙◌}
use rhex_service.Base.{List, [], ◌∷◌, ◌++◌, append-nil, append_assoc, arith, inl, inr, Bool-cases}
use rhex_service.Base.{leb, length, take, drop, get_or, set, length-append, leb→le, leb→lt}
use rhex_service.Base.{get_or-middle, set-middle, All-append}
use rhex_service.Wfb.Packet.{PacketBuffer, payload}
use rhex_service.Wfb.Io.{Env}
use rhex_service.Wfb.Handed.{IsReady, handed}
use rhex_service.Wfb.TxRawsock.{Sender}
use rhex_service.Wfb.TxRawsock.Block.Packets.{OnLink}
use rhex_service.Wfb.TxRawsock.Block.Whole.{FillsBlocks}
use rhex_service.Wfb.TxRawsock.Stream.{
  no_packet, fill_packet, close_packet, put_packet, count_packet, next_packet, tx_step,
}
use rhex_service.Wfb.TxRawsock.Stream.Packing.{
  IsFilled, fill_packet-IsFilled, close_packet-IsReady, payload-close_packet,
}
use rhex_service.Wfb.TxRawsock.Stream.WellFormed.{
  payloads, payloads-append, payloads_empty, IsWellFormed, taken,
}
use rhex_service.Wfb.TxRawsock.Stream.Blocks.{IsFinished, IsNext, next_packet-IsNext}

-- Replacing the current packet buffer adds what its payload grew by.
payloads_grown :
    (fin rest : List PacketBuffer) (old new : PacketBuffer) (chunk : List ℕ)
    → payloads rest ≡ []
    → payload new ≡ payload old ++ chunk
    → payloads (fin ++ (new ∷ rest)) ≡ payloads (fin ++ (old ∷ rest)) ++ chunk
payloads_grown fin rest old new chunk none e =
    payloads-append fin (new ∷ rest)
    ∙ ap₂ (λ p r. payloads fin ++ (p ++ r)) e none
    ∙ ap (λ p. payloads fin ++ p)
        (append-nil (payload old ++ chunk)
          ∙ ap (λ p. p ++ chunk)
              (sym (append-nil (payload old)) ∙ ap (λ r. payload old ++ r) (sym none)))
    ∙ sym (append_assoc (payloads fin) (payloads (old ∷ rest)) chunk)
    ∙ ap (λ p. p ++ chunk) (sym (payloads-append fin (old ∷ rest)))

put_packet-OnLink :
    (h k : ℕ) (s : Sender) (pb : PacketBuffer) → OnLink h k s → OnLink h k (put_packet s pb)
unfolding put_packet
put_packet-OnLink h k s pb v = record {
  header = v.header;
  room = v.room;
  allocated = v.allocated;
  one_sock = v.one_sock;
}

count_packet-OnLink : (h k : ℕ) (s : Sender) → OnLink h k s → OnLink h k (count_packet s)
unfolding count_packet
count_packet-OnLink h k s v = record {
  header = v.header;
  room = v.room;
  allocated = v.allocated;
  one_sock = v.one_sock;
}

module _ (env : Env) (fills : FillsBlocks env) (h k : ℕ) (input : List ℕ) (len : ℕ)
    (hl : length input ≡ len) (hb : len < 2 ^ 16) where
  -- A round from `offset` on: the bytes up to the new offset are taken.
  pub record IsStep (s : Sender) (offset : ℕ) (result : Sender × ℕ) : Type 0 where
    pub valid : IsWellFormed h k result.0
    pub within : (offset ≤ result.1) × (result.1 ≤ len)
    pub moved : (result.1 ≡ len) ⊎ (offset < result.1)
    pub kept : taken h result.0 ≡ taken h s ++ take (result.1 - offset) (drop offset input)
    pub number : result.0.stream.input_buffer.seq_nr ≤ s.stream.input_buffer.seq_nr + 12

  module _ (s : Sender) (v : IsWellFormed h k s) (offset : ℕ) (ho : offset ≤ len)
      (fits : s.stream.input_buffer.seq_nr + 12 ≤ 2 ^ 32) where
    open v.buffers use {finished, current, unused}

    filled : PacketBuffer × ℕ
    filled = fill_packet current input len offset

    filled-IsFilled : IsFilled current v.buffers.pending input len offset hl hb ho filled
    unfolding filled
    filled-IsFilled = fill_packet-IsFilled current v.buffers.pending input len offset hl hb ho

    current_eq : get_or s.stream.input_buffer.pbl s.stream.input_buffer.curr_pb no_packet ≡ current
    current_eq =
        ap₂ (λ p i. get_or p i no_packet) v.buffers.split (sym v.buffers.index)
        ∙ get_or-middle finished current unused no_packet

    put_eq :
        (pb : PacketBuffer)
        → set s.stream.input_buffer.pbl s.stream.input_buffer.curr_pb pb ≡ finished ++ (pb ∷ unused)
    put_eq pb =
        ap₂ (λ p i. set p i pb) v.buffers.split (sym v.buffers.index)
        ∙ set-middle finished current unused pb

    -- What is taken once the current packet buffer is replaced by one that has grown by a chunk.
    taken-put_packet :
        (pb : PacketBuffer) (chunk : List ℕ)
        → payload pb ≡ payload current ++ chunk
        → taken h (put_packet s pb) ≡ taken h s ++ chunk
    unfolding put_packet
    taken-put_packet pb chunk e =
        ap (λ p. handed h s.io.frames ++ payloads p) (put_eq pb)
        ∙ ap (λ p. handed h s.io.frames ++ p)
            (payloads_grown finished unused current pb chunk (payloads_empty unused v.buffers.empty)
                e
              ∙ ap (λ p. payloads p ++ chunk) (sym v.buffers.split))
        ∙ sym (append_assoc (handed h s.io.frames) (payloads s.stream.input_buffer.pbl) chunk)

    moved_on : (filled.1 ≡ len) ⊎ (offset < filled.1)
    moved_on = omega (arith, filled-IsFilled.ended)

    still_pending : filled.0.len < 24 → IsStep s offset (put_packet s filled.0, filled.1)
    unfolding put_packet
    still_pending short = record {
      valid = record {
        link = put_packet-OnLink h k s filled.0 v.link;
        buffers = record {
          finished = finished;
          current = filled.0;
          unused = unused;
          split = put_eq filled.0;
          index = v.buffers.index;
          eight = v.buffers.eight;
          ready = v.buffers.ready;
          pending = record {
            short = short;
            begun = inr filled-IsFilled.bounds.0;
            allocated = filled-IsFilled.allocated;
          };
          empty = v.buffers.empty;
        };
        aligned = v.aligned;
      };
      within = filled-IsFilled.within;
      moved = moved_on;
      kept = taken-put_packet filled.0 _ filled-IsFilled.stored;
      number = omega arith;
    }

    closed : PacketBuffer
    closed = close_packet filled.0

    closed_sender : Sender
    closed_sender = count_packet (put_packet s closed)

    closed-IsFinished : 24 ≤ filled.0.len → IsFinished h k closed_sender
    unfolding closed_sender count_packet put_packet
    closed-IsFinished least = record {
      link = count_packet-OnLink h k _ (put_packet-OnLink h k s closed v.link);
      finished = finished ++ (closed ∷ []);
      unused = unused;
      split = put_eq closed ∙ sym (append_assoc finished (closed ∷ []) unused);
      index = omega (arith, length-append finished (closed ∷ []), v.buffers.index);
      eight = omega (arith, length-append finished (closed ∷ []), v.buffers.eight);
      ready = All-append IsReady finished (closed ∷ []) v.buffers.ready (
        unfold closed in
            close_packet-IsReady filled.0 least filled-IsFilled.bounds.1 filled-IsFilled.allocated,
        tt,
      );
      empty = v.buffers.empty;
      aligned = v.aligned;
    }

    closed_seq : closed_sender.stream.input_buffer.seq_nr ≡ s.stream.input_buffer.seq_nr
    unfolding closed_sender count_packet put_packet
    closed_seq = refl

    closed_taken :
        24 ≤ filled.0.len
        → taken h closed_sender ≡ taken h s ++ take (filled.1 - offset) (drop offset input)
    unfolding closed_sender count_packet closed
    closed_taken least = taken-put_packet (close_packet filled.0) _ (
        payload-close_packet filled.0 least filled-IsFilled.bounds.1 filled-IsFilled.allocated
        ∙ filled-IsFilled.stored)

    finished-IsStep : 24 ≤ filled.0.len → IsStep s offset (next_packet env closed_sender, filled.1)
    finished-IsStep least = record {
      valid = next.valid;
      within = filled-IsFilled.within;
      moved = moved_on;
      kept = next.kept ∙ closed_taken least;
      number = omega (arith, next.number, closed_seq);
    }
      where
        next : IsNext h k closed_sender (next_packet env closed_sender)
        next =
            next_packet-IsNext env fills h k closed_sender (closed-IsFinished least)
              (omega (arith, closed_seq, fits))

    pub tx_step-IsStep : IsStep s offset (tx_step env s input len offset)
    unfolding tx_step filled closed_sender closed
    tx_step-IsStep =
        rw current_eq elim (Bool-cases (leb 24 (fill_packet current input len offset).0.len)) [
          | inl long ↦ rw long (finished-IsStep (leb→le _ _ long))
          | inr short ↦ rw short (still_pending (leb→lt _ _ short))
        ]
