-- ===== src/Ground/TelemetryRx/Once.antt =====
-- What `process_packet` sends of repeated packets.
use rhex_service.Base.{
  ◌+◌, ◌-◌, ◌%◌, ◌^◌, ◌≤◌, ◌<◌, ◌≡◌, refl, sym, subst, ap, ◌∙◌, arith, List, [], ◌∷◌, ◌++◌, false,
}
use rhex_service.Base.{length, le→ltb, All, some}
use rhex_service.Wfb.RxPacket.{RxPacket}
use rhex_service.Ground.TelemetryRx.{
  Telemetry, TelemetryEnv, seqnumber, data_length, packet_data, has_seq, count_received, forward,
  process_packet, process_packets,
}
use rhex_service.Ground.TelemetryRx.Fits.{
  take_packet, take_packets, process_packet_fits, process_packets_fit,
}
use rhex_service.Ground.TelemetryRx.Window.{
  Remembers, Remembers-weaker, take_packets-Remembers, repeated, forward_sent,
}

module _ (env : TelemetryEnv) where
  accepted_packet :
      (p : RxPacket) (t : Telemetry)
      → has_seq (seqnumber p) (count_received env p t).buffer ≡ false
      → (seqnumber p + 2 ^ 32 - (count_received env p t).lastseq) % 2 ^ 32 ≤ 2 ^ 31 - 1
      → take_packet env p t ≡ forward env p (count_received env p t)
  unfolding take_packet
  accepted_packet p t fresh recent =
      rw
        (
          fresh,
          le→ltb (2 ^ 31 - 1) ((seqnumber p + 2 ^ 32 - (count_received env p t).lastseq) % 2 ^ 32)
              recent,
        )
        refl

  -- A telemetry packet that is not remembered, with a sequence number below 2^31, and at most 400
  -- bytes of data, as many as a slot holds, is sent when sendto() succeeds, once: when 99 packets
  -- or fewer come next, of at most 400 bytes of data each, a packet with the same sequence number
  -- is not sent. The calls are all defined. The buffer has its hundred slots and lastseq is 0, as
  -- it always is.
  pub sent_once :
      (p q : RxPacket) (ps : List RxPacket) (t : Telemetry)
      → length t.buffer ≡ 100
      → t.buf_pos < 100
      → t.lastseq ≡ 0
      → has_seq (seqnumber p) t.buffer ≡ false
      → seqnumber p < 2 ^ 31
      → data_length p ≤ 400
      → env.sendto_fails t.sends ≡ false
      → length ps ≤ 99
      → All (λ r. data_length r ≤ 400) ps
      → seqnumber q ≡ seqnumber p
      → (t1 : Telemetry) × (t2 : Telemetry) × (t3 : Telemetry) × (process_packet env p t ≡ some t1)
        × (t1.sent ≡ t.sent ++ (packet_data p ∷ []))
        × (process_packets env ps t1 ≡ some t2)
        × (process_packet env q t2 ≡ some t3)
        × (t3.sent ≡ t2.sent)
  unfolding count_received
  sent_once p q ps t hundred position zero_last fresh low fits sends few fit same = (
    take_packet env p t,
    take_packets env ps (take_packet env p t),
    count_received env q (take_packets env ps (take_packet env p t)),
    process_packet_fits env p t fits,
    ap (λ r. r.sent) accepted ∙ one.1,
    process_packets_fit env ps (take_packet env p t) fit,
    repeated env 0 q _ (
        subst (λ m. Remembers m 0 (take_packets env ps (take_packet env p t))) (sym same)
          (take_packets-Remembers env (seqnumber p) 0 ps (take_packet env p t) (
            subst (Remembers (seqnumber p) (length ps + 0)) (sym accepted)
              (Remembers-weaker (seqnumber p) 99 (length ps + 0) _ (omega arith) one.0)))),
    refl,
  )
    where
      accepted : take_packet env p t ≡ forward env p (count_received env p t)
      accepted =
          accepted_packet p t (unfold count_received in fresh)
            (unfold count_received in omega (arith, low, zero_last))

      one :
          Remembers (seqnumber p) 99 (forward env p (count_received env p t))
          × ((forward env p (count_received env p t)).sent ≡ t.sent ++ (packet_data p ∷ []))
      one =
          unfold count_received in
          forward_sent env p (count_received env p t) hundred position sends
