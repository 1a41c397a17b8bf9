-- ===== src/Wfb/TxRawsock/Stream/WellFormed.antt =====
-- The invariant of a stream between two calls of `wfb_tx_stream`.
use rhex_service.Base.{ℕ, ◌+◌, ◌%◌, ◌≡◌, refl, sym, ap, ap₂, ◌∙◌}
use rhex_service.Base.{List, [], ◌∷◌, ◌++◌, map, append_assoc, arith, inl}
use rhex_service.Base.{length, All}
use rhex_service.Base.{length-map}
use rhex_service.Wfb.Packet.{PacketBuffer, payload}
use rhex_service.Wfb.Handed.{IsReady, handed, block_payload-IsReady}
use rhex_service.Wfb.TxRawsock.{Sender}
use rhex_service.Wfb.TxRawsock.Block.{reset_len}
use rhex_service.Wfb.TxRawsock.Block.Packets.{OnLink}
use rhex_service.Wfb.TxRawsock.Block.Sent.{sent_payloads, IsLong}
use rhex_service.Wfb.TxRawsock.Stream.{}
use rhex_service.Wfb.TxRawsock.Stream.Packing.{IsPending}

-- The stream bytes in a list of packet buffers.
abbrev pub payloads : List PacketBuffer → List ℕ
payloads [] = []
payloads (p ∷ ps) = payload p ++ payloads ps

pub payloads-append : (ps qs : List PacketBuffer) → payloads (ps ++ qs) ≡ payloads ps ++ payloads qs
payloads-append [] qs = refl
payloads-append (p ∷ ps) qs =
    ap (λ r. payload p ++ r) (payloads-append ps qs)
    ∙ sym (append_assoc (payload p) (payloads ps) (payloads qs))

-- A packet buffer that nothing was put into.
abbrev pub IsEmpty : PacketBuffer → Type 0
IsEmpty p = (p.len ≡ 0) × (length p.bytes ≡ 4192)

pub payloads_empty : (ps : List PacketBuffer) → All IsEmpty ps → payloads ps ≡ []
payloads_empty [] h = refl
payloads_empty (p ∷ ps) h = rw (h.0.0) (payloads_empty ps h.1)

-- A list of packet buffers as the stream leaves it: finished ones, the one being filled, empty ones.
pub record IsSplit (pbl : List PacketBuffer) (curr : ℕ) : Type 0 where
  pub finished : List PacketBuffer
  pub current : PacketBuffer
  pub unused : List PacketBuffer
  pub split : pbl ≡ finished ++ (current ∷ unused)
  pub index : length finished ≡ curr
  pub eight : length finished + length unused ≡ 7
  pub ready : All IsReady finished
  pub pending : IsPending current
  pub empty : All IsEmpty unused

-- The invariant of a stream with a radio header of `h` bytes on the socket `k`.
pub record IsWellFormed (h k : ℕ) (s : Sender) : Type 0 where
  pub link : OnLink h k s
  pub buffers : IsSplit s.stream.input_buffer.pbl s.stream.input_buffer.curr_pb
  pub aligned : s.stream.input_buffer.seq_nr % 12 ≡ 0

-- The stream bytes that a sender has taken: those handed to write(), then those in its packet
-- buffers.
abbrev pub taken : ℕ → Sender → List ℕ
taken h s = handed h s.io.frames ++ payloads s.stream.input_buffer.pbl

pub sent_payloads-IsReady :
    (ps : List PacketBuffer) → All IsReady ps → sent_payloads (map (λ p. p.bytes) ps) ≡ payloads ps
sent_payloads-IsReady [] h = refl
sent_payloads-IsReady (p ∷ ps) h =
    ap₂ ◌++◌ (block_payload-IsReady p h.0) (sent_payloads-IsReady ps h.1)

pub ready-IsLong : (ps : List PacketBuffer) → All IsReady ps → All (λ p. IsLong p.bytes) ps
ready-IsLong [] h = tt
ready-IsLong (p ∷ ps) h = (omega (arith, h.0.allocated), ready-IsLong ps h.1)

pub ready_reset : (ps : List PacketBuffer) → All IsReady ps → All IsEmpty (map reset_len ps)
ready_reset [] h = tt
ready_reset (p ∷ ps) h = ((refl, h.0.allocated), ready_reset ps h.1)

-- Emptied packet buffers are those of a stream at the start of a block.
pub reset-IsSplit :
    (ps : List PacketBuffer) → length ps ≡ 8 → All IsReady ps → IsSplit (map reset_len ps) 0
reset-IsSplit [] e h = absurd (omega arith)
reset-IsSplit (p ∷ ps) e h = record {
  finished = [];
  current = reset_len p;
  unused = map reset_len ps;
  split = refl;
  index = refl;
  eight = omega (arith, length-map reset_len ps);
  ready = tt;
  pending = record { short = omega arith; begun = inl refl; allocated = h.0.allocated };
  empty = ready_reset ps h.1;
}
