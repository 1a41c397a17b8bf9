-- ===== src/Wfb/TxRawsock/Stream/Blocks.antt =====
-- A finished packet: the next one is begun, or the block is sent.
use rhex_service.Base.{ℕ, ◌+◌, ◌%◌, ◌^◌, ◌≤◌, ◌≡◌, ◌≢◌, refl, sym, ap, ap₂, ◌∙◌}
use rhex_service.Base.{List, [], ◌∷◌, ◌++◌, map, append-nil, arith, inl, inr, Bool-cases}
use rhex_service.Base.{◌==◌, ==_iff, length, All, subst}
use rhex_service.Wfb.Packet.{PacketBuffer}
use rhex_service.Wfb.Io.{Env}
use rhex_service.Wfb.Handed.{IsReady, handed}
use rhex_service.Wfb.TxRawsock.{Sender}
use rhex_service.Wfb.TxRawsock.Block.{reset_len, pb_transmit_block}
use rhex_service.Wfb.TxRawsock.Block.Packets.{OnLink}
use rhex_service.Wfb.TxRawsock.Block.Sent.{sent_payloads}
use rhex_service.Wfb.TxRawsock.Block.Whole.{FillsBlocks, input_after, pb_transmit_block_lem}
use rhex_service.Wfb.TxRawsock.Stream.{set_curr_pb, next_packet}
use rhex_service.Wfb.TxRawsock.Stream.WellFormed.{
  payloads, payloads_empty, IsEmpty, IsSplit, IsWellFormed, taken, sent_payloads-IsReady,
  ready-IsLong, ready_reset, reset-IsSplit,
}

-- A sender whose current packet buffer has been finished.
pub record IsFinished (h k : ℕ) (s : Sender) : Type 0 where
  pub link : OnLink h k s
  pub finished : List PacketBuffer
  pub unused : List PacketBuffer
  pub split : s.stream.input_buffer.pbl ≡ finished ++ unused
  pub index : length finished ≡ s.stream.input_buffer.curr_pb + 1
  pub eight : length finished + length unused ≡ 8
  pub ready : All IsReady finished
  pub empty : All IsEmpty unused
  pub aligned : s.stream.input_buffer.seq_nr % 12 ≡ 0

-- The next packet buffer is unused: it is the current one.
next-IsSplit :
    (finished unused : List PacketBuffer) (pbl : List PacketBuffer)
    → pbl ≡ finished ++ unused
    → length finished + length unused ≡ 8
    → length finished ≢ 8
    → All IsReady finished
    → All IsEmpty unused
    → IsSplit pbl (length finished)
next-IsSplit fin [] pbl e eight ne ready empty = absurd (ne (omega arith))
next-IsSplit fin (p ∷ ps) pbl e eight ne ready empty = record {
  finished = fin;
  current = p;
  unused = ps;
  split = e;
  index = refl;
  eight = omega arith;
  ready = ready;
  pending = record {
    short = omega (arith, empty.0.0);
    begun = inl empty.0.0;
    allocated = empty.0.1;
  };
  empty = empty.1;
}

-- What `next_packet` keeps.
pub record IsNext (h k : ℕ) (s s' : Sender) : Type 0 where
  pub valid : IsWellFormed h k s'
  pub kept : taken h s' ≡ taken h s
  pub number : s'.stream.input_buffer.seq_nr ≤ s.stream.input_buffer.seq_nr + 12

set_curr_pb-OnLink : (h k i : ℕ) (s : Sender) → OnLink h k s → OnLink h k (set_curr_pb i s)
unfolding set_curr_pb
set_curr_pb-OnLink h k i s v = record {
  header = v.header;
  room = v.room;
  allocated = v.allocated;
  one_sock = v.one_sock;
}

module _ (env : Env) (fills : FillsBlocks env) (h k : ℕ) (s : Sender) (v : IsFinished h k s) where
  abbrev number : ℕ
  number = s.stream.input_buffer.seq_nr

  open-IsNext :
      length v.finished ≢ 8 → IsNext h k s (set_curr_pb (s.stream.input_buffer.curr_pb + 1) s)
  unfolding set_curr_pb
  open-IsNext ne = record {
    valid = record {
      link =
          unfold set_curr_pb in set_curr_pb-OnLink h k (s.stream.input_buffer.curr_pb + 1) s v.link;
      buffers = subst (IsSplit s.stream.input_buffer.pbl) v.index (
          next-IsSplit v.finished v.unused s.stream.input_buffer.pbl v.split v.eight ne v.ready
            v.empty);
      aligned = v.aligned;
    };
    kept = refl;
    number = omega arith;
  }

  all_finished : length v.finished ≡ 8 → s.stream.input_buffer.pbl ≡ v.finished
  all_finished e = v.split ∙ no_more v.unused (omega (arith, v.eight))
    where
      no_more : (ps : List PacketBuffer) → length ps ≡ 0 → v.finished ++ ps ≡ v.finished
      no_more [] z = append-nil v.finished
      no_more (p ∷ ps) z = absurd (omega arith)

  send_block :
      length v.finished ≡ 8
      → number + 12 ≤ 2 ^ 32
      → IsNext h k s (set_curr_pb 0 (pb_transmit_block env 1024 8 4 s))
  unfolding set_curr_pb
  send_block e fits = record {
    valid = record {
      link = set_curr_pb-OnLink h k 0 (pb_transmit_block env 1024 8 4 s) sent.0;
      buffers =
          subst (λ q. IsSplit q 0) (sym pbl_after)
            (reset-IsSplit _ (ap length whole ∙ e) all_ready);
      aligned = omega (arith, seq_after, v.aligned, fits);
    };
    kept =
        ap₂ ◌++◌ (sent.2 ∙ ap (λ r. handed h s.io.frames ++ r) (sent_payloads-IsReady _ all_ready))
          (ap payloads pbl_after ∙ payloads_empty _ (ready_reset _ all_ready))
        ∙ append-nil (taken h s);
    number = omega (arith, seq_after, fits);
  }
    where
      whole : s.stream.input_buffer.pbl ≡ v.finished
      whole = all_finished e

      all_ready : All IsReady s.stream.input_buffer.pbl
      all_ready = subst (All IsReady) (sym whole) v.ready

      sent :
          let s' = pb_transmit_block env 1024 8 4 s in
          OnLink h k s'
          × (s'.stream.input_buffer ≡ input_after s.stream.input_buffer)
          × (handed h s'.io.frames
              ≡ handed h s.io.frames
                ++ sent_payloads (map (λ p. p.bytes) s.stream.input_buffer.pbl))
      sent =
          pb_transmit_block_lem env h k s v.link fills (ap length whole ∙ e)
            (ready-IsLong _ all_ready) v.aligned fits

      pbl_after :
          (pb_transmit_block env 1024 8 4 s).stream.input_buffer.pbl
          ≡ map reset_len s.stream.input_buffer.pbl
      pbl_after = ap (λ t. t.pbl) sent.1

      seq_after :
          (pb_transmit_block env 1024 8 4 s).stream.input_buffer.seq_nr ≡ (number + 12) % 2 ^ 32
      seq_after = ap (λ t. t.seq_nr) sent.1

  pub next_packet-IsNext : number + 12 ≤ 2 ^ 32 → IsNext h k s (next_packet env s)
  unfolding next_packet
  next_packet-IsNext fits = elim (Bool-cases (s.stream.input_buffer.curr_pb == 7)) [
    | inl last ↦ rw last (send_block (omega (arith, v.index, (==_iff _ _).0 last)) fits)
    | inr more ↦
        rw more (open-IsNext (λ e. cc (sym more ∙ (==_iff _ _).1 (omega (arith, v.index, e)))))
  ]
