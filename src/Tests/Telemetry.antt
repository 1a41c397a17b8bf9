-- ===== src/Tests/Telemetry.antt =====
-- A telemetry packet that arrives twice, with another one between.
use rhex_service.Base.{◌≡◌, refl, [], ◌∷◌, ◌++◌, arith, some, false, replicate}
use rhex_service.Base.Int.{negsuc}
use rhex_service.Wfb.RxPacket.{RxPacket}
use rhex_service.Ground.TelemetryRx.{
  Telemetry, TelemetryEnv, no_slot, no_adapter, packet_data, has_seq, process_packet,
  process_packets,
}
use rhex_service.Ground.TelemetryRx.Once.{sent_once}

abbrev working : TelemetryEnv
working = record { monotime = λ n. n; sendto_fails = λ n. false }

abbrev seven : RxPacket
seven = record {
  adapter = 0;
  type = 1;
  dbm = negsuc 40;
  bytes = 8;
  content = 7 ∷ 0 ∷ 0 ∷ 0 ∷ 2 ∷ 0 ∷ 65 ∷ 66 ∷ [];
}

abbrev eight : RxPacket
eight = record {
  adapter = 1;
  type = 1;
  dbm = negsuc 126;
  bytes = 8;
  content = 8 ∷ 0 ∷ 0 ∷ 0 ∷ 1 ∷ 0 ∷ 67 ∷ [];
}

abbrev started : Telemetry
started = record {
  buffer = replicate 100 no_slot;
  buf_pos = 98;
  lastseq = 0;
  status = record { last_update = 0; adapter = replicate 4 no_adapter };
  published = [];
  sent = [];
  clock_reads = 0;
  sends = 0;
}

sent_once_example :
    (t1 : Telemetry) × (t2 : Telemetry) × (t3 : Telemetry) × (process_packet working seven started
      ≡ some t1)
    × (t1.sent ≡ started.sent ++ (packet_data seven ∷ []))
    × (process_packets working (eight ∷ []) t1 ≡ some t2)
    × (process_packet working seven t2 ≡ some t3)
    × (t3.sent ≡ t2.sent)
unfolding has_seq
sent_once_example =
    sent_once working seven seven (eight ∷ []) started refl (omega arith) refl refl (omega arith)
      (omega arith) refl (omega arith) (omega arith, tt) refl
