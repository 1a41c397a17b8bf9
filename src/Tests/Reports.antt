-- ===== src/Tests/Reports.antt =====
-- A report of two adapters, of which one receives, with a layout of 14 bytes.
use rhex_service.Base.{ℕ, ◌-◌, ◌≡◌, refl, [], ◌∷◌, ◌++◌, arith, some, none, get_or}
use rhex_service.Base.Int.{ℤ, negsuc, pos}
use rhex_service.Wfb.RxPacket.{RxPacket, to_int8}
use rhex_service.Wfb.RxRawsock.{WifiAdapterRxStatus}
use rhex_service.Air.Reports.{
  Layout, TelemetryData, report_of, best_signal, link_signal, get_cputemp,
}
use rhex_service.Air.Reports.Signal.{IsStrongest}
use rhex_service.Ground.Reports.{Reports, rssi_cycles, rssi_start, publish, status_memory_init}
use rhex_service.Ground.Reports.Delivered.{report_delivered, uplink_signal, measured}

abbrev of_int8 : ℤ → ℕ
of_int8 (pos n) = n
of_int8 (negsuc n) = 255 - n

abbrev layout : Layout
layout = record {
  pack = λ d.
      of_int8 d.signal
      ∷ d.lostpackets
      ∷ of_int8 d.signal_rc
      ∷ d.lostpackets_rc
      ∷ d.cpuload
      ∷ d.temp
      ∷ d.injected_block_cnt
      ∷ d.skipped_fec_cnt
      ∷ d.injection_fail_cnt
      ∷ d.injection_time_block
      ∷ [];
  unpack = λ b. record {
    signal = to_int8 (get_or b 0 0);
    lostpackets = get_or b 1 0;
    signal_rc = to_int8 (get_or b 2 0);
    lostpackets_rc = get_or b 3 0;
    cpuload = get_or b 4 0;
    temp = get_or b 5 0;
    injected_block_cnt = get_or b 6 0;
    skipped_fec_cnt = get_or b 7 0;
    injection_fail_cnt = get_or b 8 0;
    injection_time_block = get_or b 9 0;
    bitrate_kbit = 0;
    bitrate_measured_kbit = 0;
    cts = 0;
    undervolt = 0;
  };
}

abbrev hears : WifiAdapterRxStatus
hears = record {
  received_packet_cnt = 5;
  wrong_crc_cnt = 0;
  current_signal_dbm = negsuc 49;
  signal_good = 1;
}

abbrev td : TelemetryData
td = record {
  rx_status = record {
    lost_packet_cnt = 3;
    wifi_adapter_cnt = 2;
    adapter = record hears { current_signal_dbm = negsuc 19; signal_good = 0 } ∷ hears ∷ [];
  };
  rx_status_rc = record { lost_packet_cnt = 0; wifi_adapter_cnt = 0; adapter = [] };
  tx_status = record {
    injected_block_cnt = 8;
    skipped_fec_cnt = 1;
    injection_fail_cnt = 0;
    injection_time_block = 7;
  };
}

abbrev rx : RxPacket
rx = record {
  adapter = 0;
  type = 1;
  dbm = negsuc 40;
  bytes = 12;
  content = 206 ∷ 3 ∷ 129 ∷ 0 ∷ 20 ∷ 45 ∷ 8 ∷ 1 ∷ 0 ∷ 7 ∷ 0 ∷ 0 ∷ [];
}

abbrev begun : Reports
begun = rssi_start 1 (record { lost_packet_cnt = 0; wifi_adapter_cnt = 0; adapter = [] })

report_delivered_example :
    let t = rssi_cycles layout (some rx ∷ none ∷ none ∷ []) begun in
    IsStrongest td.rx_status.adapter 0 2 (negsuc 126) (uplink_signal t)
    × (t.uplink.lost_packet_cnt ≡ 3)
    × (t.sysair ≡ measured td 20 45)
    × (t.uplinks ≡ begun.uplinks ++ (t.uplink ∷ []))
    × (t.sysairs ≡ begun.sysairs ++ (t.sysair ∷ []))
unfolding report_of link_signal best_signal rssi_start publish status_memory_init
report_delivered_example =
    report_delivered layout td 20 45 2 (0 ∷ 0 ∷ []) rx begun (λ xs. refl) refl (omega arith)

signal_fifty : link_signal td.rx_status ≡ negsuc 49
unfolding link_signal best_signal
signal_fifty = refl

temp_forty_five : get_cputemp (some (pos 45678)) ≡ 45
unfolding get_cputemp
temp_forty_five = refl
