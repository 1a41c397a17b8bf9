-- ===== src/Wfb/RxStream/Frame.antt =====
-- The statistics around process_payload leave the stream alone: the payload of a frame reaches it.
use rhex_service.Base.{
  ℕ, zero, suc, ◌+◌, ◌*◌, ◌≤◌, ◌<◌, ◌^◌, ◌≡◌, refl, ap, ◌∙◌, arith, List, [], ◌∷◌, ◌++◌, true,
  false, Option, none, some,
}
use rhex_service.Base.{
  if◌then◌else◌, if_true, if_false, if_intro, ltb, ◌==◌, dec_lt, get_or, length, le32,
}
use rhex_service.Base.Int.{ℤ, pos, negsuc, ltb_ℤ}
use rhex_service.Wfb.RxPacket.{
  no_interface, read_set, greatest, pcap_packet, radiotap_dbm_antsignal, WfbRx,
}
use rhex_service.Wfb.RxPacket
use rhex_service.Wfb.TxRawsock.Header.{ieee_header}
use rhex_service.Wfb.RxRawsock.{RxEnv, Receiver, BlockBuffer, WfbRxStreamPacket, PayloadData}
use rhex_service.Wfb.RxRawsock.Receive.{process_payload}
use rhex_service.Wfb.RxRawsock.Receive.Steps.{packet_of}
use rhex_service.Wfb.RxRawsock.Interface.{frame_payload, radiotap_len}
use rhex_service.Wfb.RxRawsock.Interface.Payload.{frame_payload_lem}
use rhex_service.Wfb.RxStream.{
  RxStream, StreamRead, stream_returned, stream_exited, take_signal, report_signal, take_arguments,
  count_frame, measure_rate, take_payload, take_frame, take_captured, elapsed, best_adapter,
  count_one, looked, look_again, wfb_rx_stream_interface, check_adapter, check_adapters,
  check_signals, stream_first, wfb_rx_stream, set_header_length,
}

-- What the stream of bytes depends on, with its counters of blocks.
pub record StreamView : Type 0 where
  pub blocks : List BlockBuffer
  pub newest : ℤ
  pub output : WfbRxStreamPacket
  pub decoded : ℕ
  pub lost : ℕ
  pub damaged : ℕ

abbrev pub stream_view : Receiver → StreamView
stream_view r = record {
  blocks = r.block_buffer_list;
  newest = r.max_block_num;
  output = r.rx_data;
  decoded = r.bytes_decoded;
  lost = r.rx_status.lost_packet_cnt;
  damaged = r.rx_status.damaged_block_cnt;
}

-- With the adapters.
record View : Type 0 where
  pub stream : StreamView
  pub cards : WfbRx

abbrev view : RxStream → View
view s = record { stream = stream_view s.core; cards = s.wfb_rx }

module _ (env : RxEnv) (radio : RxPacket.RxEnv) (datarate : ℕ → ℕ → ℕ) where
  view-take_signal :
      (a arg : ℕ) (s : RxStream) → view (take_signal env radio datarate a arg s) ≡ view s
  unfolding take_signal report_signal
  view-take_signal a arg s =
      if_intro (λ t. view t ≡ view s)
        (ltb 220000000 (elapsed (env.monotime s.core.clock_reads) (get_or s.stats.dbm_ts_prev a 0)))
        refl refl

  view-take_arguments :
      (a : ℕ) (args : List (ℕ × ℕ)) (s : RxStream)
      → view (take_arguments env radio datarate a args s) ≡ view s
  unfolding take_arguments
  view-take_arguments a [] s = refl
  view-take_arguments a ((index, arg) ∷ rest) s =
      view-take_arguments a rest
        (if index == radiotap_dbm_antsignal then take_signal env radio datarate a arg s else s)
      ∙ if_intro (λ t. view t ≡ view s) (index == radiotap_dbm_antsignal) (view-take_signal a arg s)
          refl

  view-count_frame :
      (a size : ℕ) (s : RxStream) → view (count_frame env radio datarate a size s) ≡ view s
  unfolding count_frame
  view-count_frame a size s =
      if_intro (λ t. view t ≡ view s)
        (a
          == best_adapter env radio datarate s.stats.wifi_adapter_cnt 0
              (count_one env radio datarate a s).core.rx_status.adapter (negsuc 999) 0)
        refl refl

  view-measure_rate : (s : RxStream) → view (measure_rate env radio datarate s) ≡ view s
  unfolding measure_rate
  view-measure_rate s =
      if_intro (λ t. view t ≡ view s)
        (ltb 500000000 (elapsed (env.monotime s.core.clock_reads) s.stats.current_air_datarate_ts))
        refl refl

  view-check_adapters :
      (n i : ℕ) (s : RxStream) → view (check_adapters env radio datarate n i s) ≡ view s
  unfolding check_adapters check_adapter
  view-check_adapters zero i s = refl
  view-check_adapters (suc n) i s =
      view-check_adapters n (i + 1) (check_adapter env radio datarate i s)

  view-check_signals : (s : RxStream) → view (check_signals env radio datarate s) ≡ view s
  unfolding check_signals
  view-check_signals s =
      if_intro (λ t. view t ≡ view s)
        (ltb 220000000 (elapsed (env.monotime s.core.clock_reads) s.stats.packetcounter_ts_prev))
        (view-check_adapters s.wfb_rx.count 0
          (look_again env radio datarate (looked env radio datarate s)))
        refl

  module _ (a : ℕ) where
    abbrev payload_found : List (ℕ × ℕ) → RxStream → Option (ℕ × PayloadData) → StreamRead
    payload_found args s none = stream_exited 1
    payload_found args s (some (n, pd)) = stream_returned (pos 0) (
        take_payload env radio datarate a pd
          (take_arguments env radio datarate a args (set_header_length env radio datarate a n s)))

    abbrev found : ℕ → List ℕ → RxStream → Option (List (ℕ × ℕ)) → StreamRead
    found len frame s none = stream_exited 1
    found len frame s (some args) =
        payload_found args s
          (frame_payload true (get_or s.wfb_rx.iface a no_interface).n80211_header_length frame len)

  -- The frame is taken, and its payload reaches process_payload.
  taken :
      (a len n : ℕ) (frame : List ℕ) (args : List (ℕ × ℕ)) (pd : PayloadData) (s : RxStream)
      → radio.pcap_next a ≡ pcap_packet len frame
      → radio.radiotap frame len ≡ some args
      → frame_payload true (get_or s.wfb_rx.iface a no_interface).n80211_header_length frame len
        ≡ some (n, pd)
      → (r : Receiver) × (t : RxStream) × (wfb_rx_stream_interface env radio datarate a s
          ≡ stream_returned (pos 0) t)
        × (stream_view r ≡ stream_view s.core)
        × (t.core ≡ process_payload env pd r)
  unfolding wfb_rx_stream_interface take_captured take_frame take_payload
  taken a len n frame args pd s hp hr hf = (
    s4.core,
    record s4 { core = process_payload env pd s4.core },
    ap (λ p. take_captured env radio datarate a p s) hp
        ∙ ap (found a len frame s) hr
        ∙ ap (payload_found a args s) hf,
    ap (λ (v : View). v.stream)
        (view-measure_rate (
            count_frame env radio datarate a pd.size (
              take_arguments env radio datarate a args
                (set_header_length env radio datarate a n s)))
          ∙ view-count_frame a pd.size (
              take_arguments env radio datarate a args (set_header_length env radio datarate a n s))
          ∙ view-take_arguments a args (set_header_length env radio datarate a n s)),
    refl,
  )
    where
      s4 : RxStream
      s4 = measure_rate env radio datarate (
          count_frame env radio datarate a pd.size
            (take_arguments env radio datarate a args (set_header_length env radio datarate a n s)))

  -- The descriptor of an adapter.
  abbrev pub fd_of : RxStream → ℕ → ℕ
  fd_of s j = (get_or s.wfb_rx.iface j no_interface).selectable_fd

  first_ready :
      (n i a : ℕ) (result : ℤ) (s : RxStream)
      → i ≤ a
      → a < i + n
      → ((j : ℕ) → j < a → radio.is_set (fd_of s j) ≡ false)
      → radio.is_set (fd_of s a) ≡ true
      → stream_first env radio datarate result n i s
        ≡ wfb_rx_stream_interface env radio datarate a s
  unfolding stream_first
  first_ready zero i a result s hi ha before at = absurd (omega arith)
  first_ready (suc n) i a result s hi ha before at = elim (dec_lt i a) [
    | yes h ↦
        if_false _ _ (before i h)
        ∙ first_ready n (i + 1) a result s (omega (arith, h)) (omega arith) before at
    | no h ↦
        let e : i ≡ a = omega (arith, h) in
        if_true _ _ (ap (λ j. radio.is_set (fd_of s j)) e ∙ at)
        ∙ ap (λ j. wfb_rx_stream_interface env radio datarate j s) e
  ]

  -- What select() is asked for, and the result.
  abbrev pub selected : WfbRx → ℤ
  selected w =
      radio.select (read_set radio w.count 0 w) (greatest radio 0 (read_set radio w.count 0 w) + 1)

  -- When an adapter is the first that select() finds ready, and libpcap gives a frame for it that
  -- consists of a radiotap header of 4 to 2^16 - 1 bytes that gives its own length and that the
  -- parser accepts, one of the sender's 802.11 headers, a sequence number and a packet,
  -- wfb_rx_stream returns 0 and has handed the sequence number with the packet to process_payload,
  -- on a receiver with the blocks, the output and the counts of lost packets and damaged blocks
  -- that it had before the call.
  pub wfb_rx_stream-process_payload :
      (a type port b k : ℕ) (tap ieee x : List ℕ) (args : List (ℕ × ℕ)) (s : RxStream)
      → a < s.wfb_rx.count
      → ((j : ℕ) → j < a → radio.is_set (fd_of s j) ≡ false)
      → radio.is_set (fd_of s a) ≡ true
      → ltb_ℤ (pos 0) (selected s.wfb_rx) ≡ true
      → radiotap_len tap ≡ length tap
      → 4 ≤ length tap
      → length tap < 2 ^ 16
      → ieee_header type port ≡ some ieee
      → let frame = tap ++ (ieee ++ (le32 (12 * b + k) ++ x)) in
        radio.pcap_next a ≡ pcap_packet (length frame) frame
        → radio.radiotap frame (length frame) ≡ some args
        → (r : Receiver) × (t : RxStream) × (wfb_rx_stream env radio datarate s
            ≡ stream_returned (pos 0) t)
          × (stream_view r ≡ stream_view s.core)
          × (t.core ≡ process_payload env (packet_of b k x) r)
  unfolding wfb_rx_stream
  wfb_rx_stream-process_payload a type port b k tap ieee x args s ha before at ready own four small
        hi hp hr =
      let (r, t, run, same, core) =
        taken a (length frame) (length ieee) frame args (packet_of b k x) s1 hp hr (
          frame_payload_lem (get_or s1.wfb_rx.iface a no_interface).n80211_header_length type port b
            k tap ieee x own four small hi) in
      (
        r,
        t,
        if_true _ _ (ap (λ w. ltb_ℤ (pos 0) (selected w)) cards ∙ ready)
            ∙ first_ready s1.wfb_rx.count 0 a (selected s1.wfb_rx) s1 (omega arith)
                (omega (arith, ha, ap (λ (w : WfbRx). w.count) cards))
                (λ j h.
                  ap (λ (w : WfbRx). radio.is_set (get_or w.iface j no_interface).selectable_fd)
                    cards
                  ∙ before j h)
                (ap (λ (w : WfbRx). radio.is_set (get_or w.iface a no_interface).selectable_fd)
                    cards
                  ∙ at)
            ∙ run,
        same ∙ ap (λ (v : View). v.stream) (view-check_signals s),
        core,
      )
    where
      s1 : RxStream
      s1 = check_signals env radio datarate s

      cards : (check_signals env radio datarate s).wfb_rx ≡ s.wfb_rx
      cards = ap (λ (v : View). v.cards) (view-check_signals s)

      frame : List ℕ
      frame = tap ++ (ieee ++ (le32 (12 * b + k) ++ x))
