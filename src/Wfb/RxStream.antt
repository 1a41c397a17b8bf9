-- ===== src/Wfb/RxStream.antt =====
-- The rest of libwfb/wfb_rx_rawsock.c: wfb_rx_stream with its statistics around process_payload, and
-- wfb_rx_stream_init. libpcap, select(), the radiotap parser, the clock and the data rate's floats are
-- parameters.
pub mod Signal
pub mod Frame
use rhex_service.Base.{
  ℕ, zero, suc, ◌+◌, ◌-◌, ◌*◌, ◌%◌, ◌^◌, List, [], ◌∷◌, ◌++◌, Bool, true, false, Option, none, some,
}
use rhex_service.Base.{if◌then◌else◌, ltb, ◌==◌, get_or, set, replicate}
use rhex_service.Base.Int.{ℤ, pos, negsuc, ltb_ℤ}
use rhex_service.Wfb.Packet.{PacketBuffer}
use rhex_service.Wfb.RxPacket.{
  WfbRx, MonitorInterface, PcapNext, no_interface, to_int8, radiotap_dbm_antsignal, read_set,
  greatest,
}
use rhex_service.Wfb.RxPacket
use rhex_service.Wfb.RxRawsock.{
  Receiver, WifiAdapterRxStatus, WifibroadcastRxStatus, PayloadData, RxEnv, BlockBuffer,
}
use rhex_service.Wfb.RxRawsock.Receive.{process_payload}
use rhex_service.Wfb.RxRawsock.Interface.{frame_payload}

-- What the statistics keep of wfb_rx_stream_t and the static variables, an entry for each adapter, the
-- fields of the status that process_payload leaves alone, and the statuses written to the segment.
pub record Statistics : Type 0 where
  pub dbm : List ℤ
  pub dbm_last : List ℤ
  pub dbm_ts_prev : List ℕ
  pub dbm_ts_now : List ℕ
  pub packetcounter_ts_prev : ℕ
  pub packetcounter_ts_now : ℕ
  pub packetcounter : List ℕ
  pub packetcounter_last : List ℕ
  pub bytes_received : ℕ
  pub current_air_datarate_ts : ℕ
  pub current_air_datarate_kbit : ℕ
  pub wifi_adapter_cnt : ℕ
  pub published : List WifibroadcastRxStatus

-- wfb_rx_stream_t
pub record RxStream : Type 0 where
  pub core : Receiver
  pub wfb_rx : WfbRx
  pub stats : Statistics

-- The end of the process, or the result and the new state.
pub data StreamRead : Type 0 where
  stream_exited : ℕ → StreamRead
  stream_returned : ℤ → RxStream → StreamRead

abbrev pub no_adapter : WifiAdapterRxStatus
no_adapter = record {
  received_packet_cnt = 0;
  wrong_crc_cnt = 0;
  current_signal_dbm = pos 0;
  signal_good = 0;
}

abbrev pub status_of : RxStream → ℕ → WifiAdapterRxStatus
status_of s a = get_or s.core.rx_status.adapter a no_adapter

-- The status of an adapter.
abbrev pub set_status : ℕ → WifiAdapterRxStatus → RxStream → RxStream
set_status a status s = record s {
  core = record s.core {
    rx_status = record s.core.rx_status { adapter = set s.core.rx_status.adapter a status };
  };
}

-- A reading of the clock, and the next one to make.
abbrev pub tick : RxStream → RxStream
tick s = record s { core = record s.core { clock_reads = s.core.clock_reads + 1 } }

-- The difference of two times in 64 bits.
abbrev pub elapsed : ℕ → ℕ → ℕ
elapsed later earlier = (later + 2 ^ 64 - earlier) % 2 ^ 64

-- The lower of the new signal and the last one.
abbrev pub lower : ℤ → ℤ → ℤ
lower new last = if ltb_ℤ last new then last else new

module _ (env : RxEnv) (radio : RxPacket.RxEnv) (datarate : ℕ → ℕ → ℕ) where
  -- The end of an interval of 220 ms: `dbm` is the signal kept so far.
  unfoldable pub report_signal : ℕ → ℤ → RxStream → RxStream
  report_signal a dbm s =
      let s1 = tick s in
      set_status a (record (status_of s a) { current_signal_dbm = dbm })
        (record s1 {
          stats = record s.stats {
            dbm_ts_prev = set s.stats.dbm_ts_prev a (env.monotime s.core.clock_reads);
            dbm = set s.stats.dbm a (pos 99);
            dbm_last = set s.stats.dbm_last a (pos 99);
          };
        })

  -- The case IEEE80211_RADIOTAP_DBM_ANTSIGNAL, with the argument's byte.
  unfoldable pub take_signal : ℕ → ℕ → RxStream → RxStream
  take_signal a arg s =
      let last = get_or s.stats.dbm a (pos 0) in
      let dbm = lower (to_int8 arg) last in
      let time = env.monotime s.core.clock_reads in
      let s1 : RxStream = record (tick s) {
        stats = record s.stats {
          dbm_last = set s.stats.dbm_last a last;
          dbm = set s.stats.dbm a dbm;
          dbm_ts_now = set s.stats.dbm_ts_now a time;
        };
      } in
      if ltb 220000000 (elapsed time (get_or s.stats.dbm_ts_prev a 0))
      then report_signal a dbm s1
      else s1

  -- The loop over the arguments of the radiotap header.
  unfoldable pub take_arguments : ℕ → List (ℕ × ℕ) → RxStream → RxStream
  take_arguments a [] s = s
  take_arguments a ((index, arg) ∷ rest) s =
      take_arguments a rest (if index == radiotap_dbm_antsignal then take_signal a arg s else s)

  -- The adapter with the best signal, from the number `j` on; `best` is the best so far.
  unfoldable pub best_adapter : ℕ → ℕ → List WifiAdapterRxStatus → ℤ → ℕ → ℕ
  best_adapter zero j adapters best_dbm best = best
  best_adapter (suc n) j adapters best_dbm best =
      let dbm = (get_or adapters j no_adapter).current_signal_dbm in
      best_adapter n (j + 1) adapters (if ltb_ℤ best_dbm dbm then dbm else best_dbm)
        (if ltb_ℤ best_dbm dbm then j else best)

  abbrev pub count_one : ℕ → RxStream → RxStream
  count_one a s =
      let status = status_of s a in
      set_status a
        (record status { received_packet_cnt = (status.received_packet_cnt + 1) % 2 ^ 32 }) s

  -- The count of the adapter and, if its signal is the best, the bytes.
  unfoldable pub count_frame : ℕ → ℕ → RxStream → RxStream
  count_frame a size s =
      let s1 = count_one a s in
      if a == best_adapter s.stats.wifi_adapter_cnt 0 s1.core.rx_status.adapter (negsuc 999) 0
      then record s1 {
        stats = record s1.stats { bytes_received = (s.stats.bytes_received + size) % 2 ^ 64 };
      }
      else s1

  -- Every 500 ms the data rate is worked out and the status published.
  unfoldable pub measure_rate : RxStream → RxStream
  measure_rate s =
      let time = env.monotime s.core.clock_reads in
      let s1 : RxStream = record s {
        core = record s.core { now = time; clock_reads = s.core.clock_reads + 1 };
      } in
      if ltb 500000000 (elapsed time s.stats.current_air_datarate_ts)
      then record s1 {
        stats = record s.stats {
          current_air_datarate_kbit =
              datarate s.stats.bytes_received (elapsed time s.stats.current_air_datarate_ts);
          current_air_datarate_ts = time;
          bytes_received = 0;
          published = s.stats.published ++ (s.core.rx_status ∷ []);
        };
      }
      else s1

  -- The header length of an interface.
  abbrev pub set_header_length : ℕ → ℕ → RxStream → RxStream
  set_header_length a n s = record s {
    wfb_rx = record s.wfb_rx {
      iface =
          set s.wfb_rx.iface a
            (record (get_or s.wfb_rx.iface a no_interface) { n80211_header_length = n });
    };
  }

  -- What follows the radiotap arguments.
  unfoldable pub take_payload : ℕ → PayloadData → RxStream → RxStream
  take_payload a pd s =
      let s1 = measure_rate (count_frame a pd.size s) in
      record s1 { core = process_payload env pd s1.core }

  unfoldable pub take_frame : ℕ → ℕ → List ℕ → RxStream → StreamRead
  take_frame a len frame s = elim (radio.radiotap frame len) [
    | none ↦ stream_exited 1
    | some args ↦
        elim (frame_payload true (get_or s.wfb_rx.iface a no_interface).n80211_header_length frame
          len) [
            | none ↦ stream_exited 1
            | some (n, pd) ↦
                stream_returned (pos 0)
                  (take_payload a pd (take_arguments a args (set_header_length a n s)))
          ]
  ]

  unfoldable pub take_captured : ℕ → PcapNext → RxStream → StreamRead
  take_captured a (PcapNext.pcap_error true) s = stream_exited 9
  take_captured a (PcapNext.pcap_error false) s = stream_exited 2
  take_captured a PcapNext.pcap_no_packet s = stream_returned (pos 1) s
  take_captured a (PcapNext.pcap_packet len frame) s = take_frame a len frame s

  unfoldable pub wfb_rx_stream_interface : ℕ → RxStream → StreamRead
  wfb_rx_stream_interface a s = take_captured a (radio.pcap_next a) s

  -- Whether the adapter `i` has received anything since the last look.
  unfoldable pub check_adapter : ℕ → RxStream → RxStream
  check_adapter i s =
      let status = status_of s i in
      let last = get_or s.stats.packetcounter i 0 in
      let good : ℕ = if status.received_packet_cnt == last then 0 else 1 in
      let s1 = set_status i (record status { signal_good = good }) s in
      record s1 {
        stats = record s.stats {
          packetcounter_last = set s.stats.packetcounter_last i last;
          packetcounter = set s.stats.packetcounter i status.received_packet_cnt;
          published = s.stats.published ++ (s1.core.rx_status ∷ []);
        };
      }

  -- The adapters from the number `i` on.
  unfoldable pub check_adapters : ℕ → ℕ → RxStream → RxStream
  check_adapters zero i s = s
  check_adapters (suc n) i s = check_adapters n (i + 1) (check_adapter i s)

  abbrev pub looked : RxStream → RxStream
  looked s = record (tick s) {
    stats = record s.stats { packetcounter_ts_now = env.monotime s.core.clock_reads };
  }

  abbrev pub look_again : RxStream → RxStream
  look_again s = record (tick s) {
    stats = record s.stats { packetcounter_ts_prev = env.monotime s.core.clock_reads };
  }

  unfoldable pub check_signals : RxStream → RxStream
  check_signals s =
      if ltb 220000000 (elapsed (env.monotime s.core.clock_reads) s.stats.packetcounter_ts_prev)
      then check_adapters s.wfb_rx.count 0 (look_again (looked s))
      else looked s

  -- The first adapter whose descriptor can be read; `n` are left from `i` on.
  unfoldable pub stream_first : ℤ → ℕ → ℕ → RxStream → StreamRead
  stream_first result zero i s = stream_returned result s
  stream_first result (suc n) i s =
      let rest = stream_first result n (i + 1) s in
      if radio.is_set (get_or s.wfb_rx.iface i no_interface).selectable_fd
      then wfb_rx_stream_interface i s
      else rest

  unfoldable pub wfb_rx_stream : RxStream → StreamRead
  wfb_rx_stream s =
      let s1 = check_signals s in
      let fds = read_set radio s1.wfb_rx.count 0 s1.wfb_rx in
      let result = radio.select fds (greatest radio 0 fds + 1) in
      if ltb_ℤ (pos 0) result
      then stream_first result s1.wfb_rx.count 0 s1
      else stream_returned result s1
