-- ===== src/Ground/Reports.antt =====
-- rhex_ground/rssi_rx.c: the robot's report, as the ground publishes it.
pub mod Delivered
use rhex_service.Base.{ℕ, ◌+◌, List, [], ◌∷◌, ◌++◌, Option, none, some}
use rhex_service.Base.{get_or, set, replicate}
use rhex_service.Base.Int.{ℤ, pos, negsuc}
use rhex_service.Wfb.RxRawsock.{WifiAdapterRxStatus}
use rhex_service.Wfb.RxPacket.{RxPacket}
use rhex_service.Air.Reports.{Layout, RssiData, LinkStatus, no_status}

-- wifibroadcast_rx_status_t_sysair, less its time.
pub record SysairStatus : Type 0 where
  pub cpuload : ℕ
  pub temp : ℕ
  pub injected_block_cnt : ℕ
  pub skipped_fec_cnt : ℕ
  pub injection_fail_cnt : ℕ
  pub injection_time_block : ℕ
  pub bitrate_kbit : ℕ
  pub bitrate_measured_kbit : ℕ
  pub cts : ℕ
  pub undervolt : ℕ

-- The static variables, and what was put into the segments "shm_tx_status" and
-- "shm_rx_status_sysair", in order.
pub record Reports : Type 0 where
  pub uplink : LinkStatus
  pub sysair : SysairStatus
  pub uplinks : List LinkStatus
  pub sysairs : List SysairStatus

unfoldable pub publish : Reports → Reports
publish r = record r {
  uplinks = r.uplinks ++ (r.uplink ∷ []);
  sysairs = r.sysairs ++ (r.sysair ∷ []);
}

unfoldable pub take_report : RssiData → Reports → Reports
take_report d r = record r {
  uplink = record r.uplink {
    adapter =
        set r.uplink.adapter 0
          (record (get_or r.uplink.adapter 0 no_status) { current_signal_dbm = d.signal });
    lost_packet_cnt = d.lostpackets;
  };
  sysair = record {
    cpuload = d.cpuload;
    temp = d.temp;
    injected_block_cnt = d.injected_block_cnt;
    skipped_fec_cnt = d.skipped_fec_cnt;
    injection_fail_cnt = d.injection_fail_cnt;
    injection_time_block = d.injection_time_block;
    bitrate_kbit = d.bitrate_kbit;
    bitrate_measured_kbit = d.bitrate_measured_kbit;
    cts = d.cts;
    undervolt = d.undervolt;
  };
}

unfoldable pub process_packet : Layout → RxPacket → Reports → Reports
unfolding publish take_report
process_packet layout rx r = publish (take_report (layout.unpack rx.content) r)

-- NL_MAX_IFACES adapters; the type of an adapter is left out.
abbrev pub max_ifaces : ℕ
max_ifaces = 4

unfoldable pub status_memory_init : LinkStatus → LinkStatus
status_memory_init s = record {
  lost_packet_cnt = 0;
  wifi_adapter_cnt = 0;
  adapter = replicate max_ifaces (record {
    received_packet_cnt = 0;
    wrong_crc_cnt = 0;
    current_signal_dbm = negsuc 126;
    signal_good = 0;
  });
}

abbrev pub no_sysair : SysairStatus
no_sysair = record {
  cpuload = 0;
  temp = 0;
  injected_block_cnt = 0;
  skipped_fec_cnt = 0;
  injection_fail_cnt = 0;
  injection_time_block = 0;
  bitrate_kbit = 0;
  bitrate_measured_kbit = 0;
  cts = 0;
  undervolt = 0;
}

-- The state in front of the loop of rssi_rx_main, with `count` adapters found.
unfoldable pub rssi_start : ℕ → LinkStatus → Reports
unfolding publish status_memory_init
rssi_start count s = publish (record {
  uplink = record (status_memory_init s) { wifi_adapter_cnt = count };
  sysair = no_sysair;
  uplinks = [];
  sysairs = [];
})

-- The loop on what wfb_rx_packet() gives, `none` when its result is not above 0.
unfoldable pub rssi_cycles : Layout → List (Option RxPacket) → Reports → Reports
rssi_cycles layout [] r = r
rssi_cycles layout (none ∷ rest) r = rssi_cycles layout rest r
rssi_cycles layout (some rx ∷ rest) r = rssi_cycles layout rest (process_packet layout rx r)
