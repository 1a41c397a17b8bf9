-- ===== src/Ground/TelemetryRx/Fits.antt =====
-- `process_packet` of rhex_ground/rhex_telemetry_rx.c on packets that fit in a slot.
use rhex_service.Base.{◌+◌, ◌-◌, ◌%◌, ◌^◌, ◌≤◌, ◌≡◌, refl, List, [], ◌∷◌, inl, inr, some}
use rhex_service.Base.{if◌then◌else◌, ltb, All, le→ltb, Bool-cases}
use rhex_service.Wfb.RxPacket.{RxPacket}
use rhex_service.Ground.TelemetryRx.{
  Telemetry, TelemetryEnv, seqnumber, data_length, has_seq, count_received, forward, process_packet,
  process_packets,
}

module _ (env : TelemetryEnv) where
  -- What a packet that fits in a slot does.
  unfoldable pub take_packet : RxPacket → Telemetry → Telemetry
  take_packet p t0 =
      let t = count_received env p t0 in
      if has_seq (seqnumber p) t.buffer
      then t
      else if ltb (2 ^ 31 - 1) ((seqnumber p + 2 ^ 32 - t.lastseq) % 2 ^ 32)
      then t
      else forward env p t

  unfoldable pub take_packets : List RxPacket → Telemetry → Telemetry
  take_packets [] t = t
  take_packets (p ∷ ps) t = take_packets ps (take_packet p t)

  pub process_packet_fits :
      (p : RxPacket) (t : Telemetry)
      → data_length p ≤ 400
      → process_packet env p t ≡ some (take_packet p t)
  unfolding process_packet take_packet
  process_packet_fits p t fits =
      elim (Bool-cases (has_seq (seqnumber p) (count_received env p t).buffer)) [
        | inl old ↦ rw (process_packet, old) refl
        | inr fresh ↦
            elim (Bool-cases (
              ltb (2 ^ 31 - 1)
                ((seqnumber p + 2 ^ 32 - (count_received env p t).lastseq) % 2 ^ 32))) [
                  | inl late ↦ rw (process_packet, fresh, late) refl
                  | inr recent ↦
                      rw (process_packet, fresh, recent, le→ltb 400 (data_length p) fits) refl
                ]
      ]

  pub process_packets_fit :
      (ps : List RxPacket) (t : Telemetry)
      → All (λ p. data_length p ≤ 400) ps
      → process_packets env ps t ≡ some (take_packets ps t)
  unfolding process_packets take_packets
  process_packets_fit [] t v = refl
  process_packets_fit (p ∷ ps) t v =
      rw (process_packets, process_packet_fits p t v.0)
        (process_packets_fit ps (take_packet p t) v.1)
