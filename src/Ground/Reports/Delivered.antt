-- ===== src/Ground/Reports/Delivered.antt =====
-- The robot's report arrives: what the ground publishes is what the robot measured.
use rhex_service.Base.{
  ℕ, zero, suc, ◌<◌, ◌≡◌, refl, sym, ap, ◌∙◌, subst, List, [], ◌∷◌, ◌++◌, none, some,
}
use rhex_service.Base.{length, get_or, replicate, get_or-set_self}
use rhex_service.Base.Int.{ℤ, negsuc}
use rhex_service.Wfb.RxRawsock.{WifiAdapterRxStatus}
use rhex_service.Wfb.RxPacket.{RxPacket}
use rhex_service.Air.Reports.{TelemetryData, Layout, report_of, link_signal, no_status}
use rhex_service.Air.Reports.Signal.{IsStrongest, link_signal-IsStrongest}
use rhex_service.Ground.Reports.{
  Reports, SysairStatus, process_packet, take_report, publish, rssi_cycles,
}

-- The robot's own counters, as the ground keeps them.
abbrev pub measured : TelemetryData → ℕ → ℕ → SysairStatus
measured td cpuload temp = record {
  cpuload = cpuload;
  temp = temp;
  injected_block_cnt = td.tx_status.injected_block_cnt;
  skipped_fec_cnt = td.tx_status.skipped_fec_cnt;
  injection_fail_cnt = td.tx_status.injection_fail_cnt;
  injection_time_block = td.tx_status.injection_time_block;
  bitrate_kbit = 0;
  bitrate_measured_kbit = 0;
  cts = 0;
  undervolt = 0;
}

-- The signal that the ground keeps for its way up.
abbrev pub uplink_signal : Reports → ℤ
uplink_signal r = (get_or r.uplink.adapter 0 no_status).current_signal_dbm

quiet : (layout : Layout) (n : ℕ) (r : Reports) → rssi_cycles layout (replicate n none) r ≡ r
unfolding rssi_cycles
quiet layout zero r = refl
quiet layout (suc n) r = quiet layout n r

-- When the ground gets a packet that begins with the robot's report, and then any number of rounds
-- without a packet, the signal that it keeps for its way up is -127 dBm or that of an adapter of
-- the robot that receives, and none of those that receive has a stronger one; the count of lost
-- packets is the robot's, the system status is the robot's load, temperature and counters of
-- injected blocks with zeros for the data rates and the other two fields, and both have been
-- published once. The layout of the report shows its fields as they were put in, and the status has
-- an adapter.
pub report_delivered :
    (layout : Layout) (td : TelemetryData) (cpuload temp n : ℕ) (rest : List ℕ) (rx : RxPacket)
    (r : Reports)
    → ((xs : List ℕ)
        → layout.unpack (layout.pack (report_of td cpuload temp) ++ xs) ≡ report_of td cpuload temp)
    → rx.content ≡ layout.pack (report_of td cpuload temp) ++ rest
    → 0 < length r.uplink.adapter
    → let t = rssi_cycles layout (some rx ∷ replicate n none) r in
      IsStrongest td.rx_status.adapter 0 td.rx_status.wifi_adapter_cnt
        (negsuc 126)
        (uplink_signal t)
      × (t.uplink.lost_packet_cnt ≡ td.rx_status.lost_packet_cnt)
      × (t.sysair ≡ measured td cpuload temp)
      × (t.uplinks ≡ r.uplinks ++ (t.uplink ∷ []))
      × (t.sysairs ≡ r.sysairs ++ (t.sysair ∷ []))
unfolding rssi_cycles process_packet take_report publish report_of
report_delivered layout td cpuload temp n rest rx r law starts room =
    subst
      (λ t.
        IsStrongest td.rx_status.adapter 0 td.rx_status.wifi_adapter_cnt (negsuc 126)
          (uplink_signal t)
        × (t.uplink.lost_packet_cnt ≡ td.rx_status.lost_packet_cnt)
        × (t.sysair ≡ measured td cpuload temp)
        × (t.uplinks ≡ r.uplinks ++ (t.uplink ∷ []))
        × (t.sysairs ≡ r.sysairs ++ (t.sysair ∷ [])))
      (sym (
        quiet layout n (process_packet layout rx r)
        ∙ ap (λ d. publish (take_report d r)) (ap layout.unpack starts ∙ law rest)))
      (
        subst (IsStrongest td.rx_status.adapter 0 td.rx_status.wifi_adapter_cnt (negsuc 126))
            (sym (
              ap (λ (w : WifiAdapterRxStatus). w.current_signal_dbm)
                (get_or-set_self r.uplink.adapter 0
                  (record (get_or r.uplink.adapter 0 no_status) {
                    current_signal_dbm = link_signal td.rx_status;
                  })
                  no_status room)))
            (link_signal-IsStrongest td.rx_status),
        refl,
        refl,
        refl,
        refl,
      )
