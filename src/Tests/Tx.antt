-- ===== src/Tests/Tx.antt =====
-- The stream sender on a concrete stream: one adapter, eight buffers, an encoder that answers with zeros.
use rhex_service.Base.{
  ℕ, ◌+◌, ◌*◌, ◌≡◌, refl, List, [], ◌∷◌, ◌++◌, arith, true, false, some, inl, inr,
}
use rhex_service.Base.{◌==◌, All-replicate, length, take, replicate, length-replicate}
use rhex_service.Base.Int.{pos}
use rhex_service.Wfb.Packet.{PacketBuffer}
use rhex_service.Wfb.Io.{Env}
use rhex_service.Wfb.TxRawsock.{Sender, WfbStream}
use rhex_service.Wfb.TxRawsock.Block.Packets.{OnLink}
use rhex_service.Wfb.TxRawsock.Block.Sent.{IsLong}
use rhex_service.Wfb.TxRawsock.Block.Whole.{FillsBlocks}
use rhex_service.Wfb.TxRawsock.Stream.{wfb_tx_stream}
use rhex_service.Wfb.TxRawsock.Stream.WellFormed.{IsWellFormed, IsEmpty, taken}
use rhex_service.Wfb.TxRawsock.Stream.Lossless.{wfb_tx_stream_lossless}
use rhex_service.Wfb.TxRawsock.Header.{
  ieee_header, datarate, radiotap_header, mcs_header, packet_header_init, packet_header_init80211_n,
}
use rhex_service.Wfb.TxRawsock.Header.Sizes.{
  packet_header_init_whole, packet_header_init80211_n_short,
}
use rhex_service.Wfb.TxRawsock.Init.{InitEnv, wfb_stream_init, fresh_sender}
use rhex_service.Wfb.TxRawsock.Init.Start.{wfb_stream_init-IsWellFormed}

abbrev zero_blocks : List (List ℕ)
zero_blocks = replicate 4 (replicate 1024 0)

abbrev zero_env : Env
zero_env = record {
  monotime = λ n. 1000 * n;
  write_fails = λ n. n == 2;
  fec_encode = λ size blocks n. zero_blocks;
}

zero_env_fills : FillsBlocks zero_env
zero_env_fills blocks = (
  refl,
  All-replicate IsLong 4 (replicate 1024 0) (omega (arith, length-replicate {A = ℕ} 1024 0)),
)

abbrev empty_packet : PacketBuffer
empty_packet = record { valid = false; crc_correct = false; len = 0; bytes = replicate 4192 0 }

-- A stream with a radio header of 17 bytes on the socket 3.
abbrev idle : Sender
idle = fresh_sender (record {
  wfb_tx = record { sock = 3 ∷ 0 ∷ 0 ∷ 0 ∷ []; count = 1; pcnt = 0 };
  phdr_len = 17;
  input_buffer = record { seq_nr = 24; curr_pb = 0; pbl = replicate 8 empty_packet };
  buf = replicate 4192 0;
})

idle-OnLink : OnLink 17 3 idle
idle-OnLink = record {
  header = refl;
  room = omega arith;
  allocated = length-replicate {A = ℕ} 4192 0;
  one_sock = refl;
}

idle-IsWellFormed : IsWellFormed 17 3 idle
idle-IsWellFormed = record {
  link = idle-OnLink;
  buffers = record {
    finished = [];
    current = empty_packet;
    unused = replicate 7 empty_packet;
    split = refl;
    index = refl;
    eight = refl;
    ready = tt;
    pending = record {
      short = omega arith;
      begun = inl refl;
      allocated = length-replicate {A = ℕ} 4192 0;
    };
    empty = All-replicate IsEmpty 7 empty_packet (refl, length-replicate {A = ℕ} 4192 0);
  };
  aligned = refl;
}

wfb_tx_stream_lossless_example :
    let (s', ended) = wfb_tx_stream zero_env idle (replicate 30 5) 30 in
    (ended ≡ true) × IsWellFormed 17 3 s' × (taken 17 s' ≡ taken 17 idle ++ replicate 30 5)
wfb_tx_stream_lossless_example =
    wfb_tx_stream_lossless zero_env zero_env_fills 17 3 idle (replicate 30 5) 30 idle-IsWellFormed
      refl (omega arith) (omega arith)

abbrev short_ieee : List ℕ
short_ieee = 8 ∷ 1 ∷ 0 ∷ 0 ∷ 11 ∷ []

packet_header_init_whole_example :
    (size : ℕ) × (buf' : List ℕ) × (packet_header_init (replicate 40 0) 0 12 5 ≡ some (size, buf'))
    × (take size buf' ≡ radiotap_header 24 ++ short_ieee)
unfolding datarate ieee_header
packet_header_init_whole_example =
    packet_header_init_whole (replicate 40 0) 0 12 5 24 short_ieee (omega arith) refl refl

packet_header_init80211_n_short_example :
    (size : ℕ) × (buf' : List ℕ) × (packet_header_init80211_n
        (replicate 40 0)
        (mcs_header 55 48 12)
        0
        5
      ≡ some (size, buf'))
    × (take (13 + size) buf' ≡ mcs_header 55 48 12 ++ short_ieee)
    × (size ≡ length short_ieee)
unfolding ieee_header
packet_header_init80211_n_short_example =
    packet_header_init80211_n_short (replicate 40 0) 55 48 12 0 5 short_ieee (omega arith) refl

abbrev one_adapter : InitEnv
one_adapter = record {
  malloc = λ i. replicate 4192 i;
  nl_get_wlan_rt_list = inr (7 ∷ []);
  wfb_open_sock = λ i. some 3;
}

wfb_stream_init-IsWellFormed_example :
    (stream : WfbStream) × (h : ℕ) × (wfb_stream_init one_adapter 5 0 false false false
      ≡ some (pos 0, stream))
    × IsWellFormed h 3 (fresh_sender stream)
    × (taken h (fresh_sender stream) ≡ [])
unfolding ieee_header
wfb_stream_init-IsWellFormed_example =
    wfb_stream_init-IsWellFormed one_adapter (λ i. length-replicate {A = ℕ} 4192 i) 5 0 false false
      false 7 3 short_ieee refl refl refl
