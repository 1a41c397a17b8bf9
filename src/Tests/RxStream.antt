-- ===== src/Tests/RxStream.antt =====
-- Three signals of an adapter, and a frame that comes in on the second of two adapters.
use rhex_service.Base.{
  ℕ, zero, suc, ◌*◌, ◌≡◌, ◌<◌, refl, List, [], ◌∷◌, ◌++◌, arith, false, some, length, get_or, All,
  le32, ◌==◌,
}
use rhex_service.Base.Int.{pos, ◌≤ℤ◌}
use rhex_service.Wfb.RxPacket.{WfbRx, to_int8, pcap_packet}
use rhex_service.Wfb.RxPacket
use rhex_service.Wfb.TxRawsock.Header.{ieee_header}
use rhex_service.Wfb.RxRawsock.{Receiver, WifiAdapterRxStatus, RxEnv}
use rhex_service.Wfb.RxRawsock.Receive.{process_payload}
use rhex_service.Wfb.RxRawsock.Receive.Steps.{packet_of}
use rhex_service.Wfb.RxStream.{RxStream, Statistics, stream_returned, wfb_rx_stream, status_of}
use rhex_service.Wfb.RxStream.Signal.{reported_weakest, take_signals}
use rhex_service.Wfb.RxStream.Frame.{wfb_rx_stream-process_payload, stream_view}
use rhex_service.Tests.Rx.{idle}

-- A clock that moves on by 100 ms with every reading.
abbrev slow_env : RxEnv
slow_env = record {
  monotime = λ n. n * 100000000;
  fec_decode = λ len blocks fec nos erased. blocks;
}

abbrev adapter : WifiAdapterRxStatus
adapter = record {
  received_packet_cnt = 0;
  wrong_crc_cnt = 0;
  current_signal_dbm = pos 0;
  signal_good = 0;
}

abbrev stats : Statistics
stats = record {
  dbm = pos 99 ∷ pos 99 ∷ [];
  dbm_last = pos 99 ∷ pos 99 ∷ [];
  dbm_ts_prev = 0 ∷ 0 ∷ [];
  dbm_ts_now = 0 ∷ 0 ∷ [];
  packetcounter_ts_prev = 0;
  packetcounter_ts_now = 0;
  packetcounter = 0 ∷ 0 ∷ [];
  packetcounter_last = 0 ∷ 0 ∷ [];
  bytes_received = 0;
  current_air_datarate_ts = 0;
  current_air_datarate_kbit = 0;
  wifi_adapter_cnt = 2;
  published = [];
}

abbrev listening : RxStream
listening = record {
  core = record idle {
    rx_status = record idle.rx_status { adapter = adapter ∷ adapter ∷ [] };
    clock_reads = 1;
  };
  wfb_rx = record {
    iface =
        record { selectable_fd = 4; n80211_header_length = 0 }
        ∷ record { selectable_fd = 5; n80211_header_length = 0 }
        ∷ [];
    type = 0 ∷ 0 ∷ [];
    count = 2;
  };
  stats = stats;
}

-- The parser finds the signal -40 dBm.
abbrev tap : List ℕ
tap = 0 ∷ 0 ∷ 8 ∷ 0 ∷ 32 ∷ 0 ∷ 0 ∷ 216 ∷ []

abbrev short_ieee : List ℕ
short_ieee = 8 ∷ 1 ∷ 0 ∷ 0 ∷ 11 ∷ []

abbrev captured : List ℕ
captured = tap ++ (short_ieee ++ (le32 60 ++ (7 ∷ 7 ∷ [])))

abbrev radio : RxPacket.RxEnv
radio = record {
  select = λ fds nfds. pos 1;
  is_set = λ fd. fd == 5;
  pcap_next = λ i. pcap_packet (length captured) captured;
  radiotap = λ frame len. some ((5, 216) ∷ []);
}

abbrev rate : ℕ → ℕ → ℕ
rate bytes time = bytes

-- -50, -60 and -40 dBm.
reported_weakest_example :
    let reported =
      (status_of
        (take_signals slow_env radio rate 1 (206 ∷ 196 ∷ 216 ∷ []) listening)
        1).current_signal_dbm in
    All (λ b. reported ≤ℤ to_int8 b) (206 ∷ 196 ∷ 216 ∷ [])
    × ((i : ℕ) × (i < 3) × (reported ≡ to_int8 (get_or (206 ∷ 196 ∷ 216 ∷ []) i 0)))
reported_weakest_example =
    reported_weakest slow_env radio rate 1 0 1 216 (206 ∷ 196 ∷ []) listening
      (record { kept = refl; since = refl; place = omega arith; entry = omega arith; reads = refl })
      (omega arith) (omega arith) (omega arith)

wfb_rx_stream-process_payload_example :
    (r : Receiver) × (t : RxStream) × (wfb_rx_stream slow_env radio rate listening
      ≡ stream_returned (pos 0) t)
    × (stream_view r ≡ stream_view listening.core)
    × (t.core ≡ process_payload slow_env (packet_of 5 0 (7 ∷ 7 ∷ [])) r)
unfolding ieee_header
wfb_rx_stream-process_payload_example =
    wfb_rx_stream-process_payload slow_env radio rate 1 0 5 5 0 tap short_ieee (7 ∷ 7 ∷ [])
      ((5, 216) ∷ []) listening (omega arith) only_second refl refl refl (omega arith) (omega arith)
      refl refl refl
  where
    only_second :
        (j : ℕ)
        → j < 1
        → ((get_or listening.wfb_rx.iface j
              (record { selectable_fd = 0; n80211_header_length = 0 })).selectable_fd
            == 5)
          ≡ false
    only_second zero h = refl
    only_second (suc j) h = absurd (omega arith)
