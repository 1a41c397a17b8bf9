-- ===== src/Air/Reports.antt =====
-- rhex_air/control/rssi_tx.c: the report on the radio link that the robot sends. The layout of the
-- report's packet is in a submodule and a parameter, and so are the files that give load and
-- temperature.
pub mod Signal
use rhex_service.Base.{
  ℕ, zero, suc, ◌+◌, ◌-◌, ◌/◌, ◌%◌, List, [], ◌∷◌, Bool, true, false, ◌&&◌, Option, none, some,
}
use rhex_service.Base.{if◌then◌else◌, ◌==◌, get_or, length}
use rhex_service.Base.Int.{ℤ, pos, negsuc, ltb_ℤ}
use rhex_service.Wfb.Io.{Env}
use rhex_service.Wfb.RxRawsock.{WifiAdapterRxStatus}
use rhex_service.Wfb.TxPacket.{PacketTx, Cards, wfb_tx_send_raw}

-- struct rssi_data_t, the fields that are read or written.
pub record RssiData : Type 0 where
  pub signal : ℤ
  pub lostpackets : ℕ
  pub signal_rc : ℤ
  pub lostpackets_rc : ℕ
  pub cpuload : ℕ
  pub temp : ℕ
  pub injected_block_cnt : ℕ
  pub skipped_fec_cnt : ℕ
  pub injection_fail_cnt : ℕ
  pub injection_time_block : ℕ
  pub bitrate_kbit : ℕ
  pub bitrate_measured_kbit : ℕ
  pub cts : ℕ
  pub undervolt : ℕ

-- The struct's bytes, and what a pointer to bytes shows.
pub record Layout : Type 0 where
  pub pack : RssiData → List ℕ
  pub unpack : List ℕ → RssiData

-- What is read of wifibroadcast_rx_status_t and wifibroadcast_rx_status_t_rc, and the whole of
-- wifibroadcast_tx_status_t less its time.
pub record LinkStatus : Type 0 where
  pub lost_packet_cnt : ℕ
  pub wifi_adapter_cnt : ℕ
  pub adapter : List WifiAdapterRxStatus

pub record TxStatus : Type 0 where
  pub injected_block_cnt : ℕ
  pub skipped_fec_cnt : ℕ
  pub injection_fail_cnt : ℕ
  pub injection_time_block : ℕ

-- telemetry_data_t
pub record TelemetryData : Type 0 where
  pub rx_status : LinkStatus
  pub rx_status_rc : LinkStatus
  pub tx_status : TxStatus

abbrev pub no_status : WifiAdapterRxStatus
no_status = record {
  received_packet_cnt = 0;
  wrong_crc_cnt = 0;
  current_signal_dbm = pos 0;
  signal_good = 0;
}

-- The number in the file, if it can be read; it is an int, and the result a byte.
unfoldable pub get_cputemp : Option ℤ → ℕ
get_cputemp none = 0
get_cputemp (some (pos n)) = n / 1000 % 256
get_cputemp (some (negsuc n)) = (256 - (n + 1) / 1000 % 256) % 256

-- One adapter: the best signal so far, and whether there was none.
abbrev pub better : WifiAdapterRxStatus → ℤ × Bool → ℤ × Bool
better status (best, no_signal) =
    if status.signal_good == 1
    then (if ltb_ℤ best status.current_signal_dbm then status.current_signal_dbm else best, false)
    else (best, no_signal)

-- The loop over the adapters: `n` are left, from the number `c` on.
unfoldable pub best_signal : ℕ → ℕ → List WifiAdapterRxStatus → ℤ × Bool → ℤ × Bool
best_signal zero c adapters found = found
best_signal (suc n) c adapters found =
    best_signal n (c + 1) adapters (better (get_or adapters c no_status) found)

unfoldable pub link_signal : LinkStatus → ℤ
link_signal status =
    let (best, no_signal) =
      best_signal status.wifi_adapter_cnt 0 status.adapter (negsuc 126, true) in
    if no_signal then negsuc 126 else best

-- The fields that are not set are zero.
unfoldable pub report_of : TelemetryData → ℕ → ℕ → RssiData
report_of td cpuload temp = record {
  signal = link_signal td.rx_status;
  lostpackets = td.rx_status.lost_packet_cnt;
  signal_rc = link_signal td.rx_status_rc;
  lostpackets_rc = td.rx_status_rc.lost_packet_cnt;
  cpuload = cpuload;
  temp = temp;
  injected_block_cnt = td.tx_status.injected_block_cnt;
  skipped_fec_cnt = td.tx_status.skipped_fec_cnt;
  injection_fail_cnt = td.tx_status.injection_fail_cnt;
  injection_time_block = td.tx_status.injection_time_block;
  bitrate_kbit = 0;
  bitrate_measured_kbit = 0;
  cts = 0;
  undervolt = 0;
}

-- The packet is sent three times; `none` is exit(1).
unfoldable pub send_rssi :
    Env → Layout → TelemetryData → ℕ → ℕ → PacketTx → Cards → Option (PacketTx × Cards)
send_rssi env layout td cpuload temp tx cards =
    let packet = layout.pack (report_of td cpuload temp) in
    elim (wfb_tx_send_raw env tx packet (length packet) cards) [
      | none ↦ none
      | some (tx1, cards1) ↦ elim (wfb_tx_send_raw env tx1 packet (length packet) cards1) [
        | none ↦ none
        | some (tx2, cards2) ↦ wfb_tx_send_raw env tx2 packet (length packet) cards2
      ]
    ]
