-- ===== src/Wfb/TxRawsock/Init/Start.antt =====
-- The stream that `wfb_stream_init` makes, against the invariant of `wfb_tx_stream`.
use rhex_service.Base.{
  ℕ, zero, suc, ◌+◌, ◌≤◌, ◌≡◌, refl, ap₂, ◌∙◌, List, [], ◌∷◌, Bool, true, false, arith,
}
use rhex_service.Base.{some, inl, inr, if◌then◌else◌, length, replicate, All, length-memcpy, memcpy}
use rhex_service.Base.Int.{pos}
use rhex_service.Wfb.Handed.{handed}
use rhex_service.Wfb.TxRawsock.{WfbStream}
use rhex_service.Wfb.TxRawsock.Header.{
  datarate, ieee_header, radiotap_header, mcs_header, packet_header_init, packet_header_init80211_n,
}
use rhex_service.Wfb.TxRawsock.Header.Sizes.{length-ieee_header}
use rhex_service.Wfb.TxRawsock.Stream.WellFormed.{
  IsSplit, IsEmpty, IsWellFormed, taken, payloads_empty,
}
use rhex_service.Wfb.TxRawsock.Init.{
  InitEnv, alloc_packet_buffer_list, open_all, mcs_flags, stream_on, wfb_stream_init, fresh_sender,
}

module _ (env : InitEnv) (alloc : (i : ℕ) → length (env.malloc i) ≡ 4192) where
  allocated-IsEmpty : (i n : ℕ) → All IsEmpty (alloc_packet_buffer_list env i n)
  unfolding alloc_packet_buffer_list
  allocated-IsEmpty i zero = tt
  allocated-IsEmpty i (suc n) = ((refl, alloc i), allocated-IsEmpty (i + 1) n)

  allocated-IsSplit : IsSplit (alloc_packet_buffer_list env 0 8) 0
  unfolding alloc_packet_buffer_list
  allocated-IsSplit = record {
    finished = [];
    current = record { valid = false; crc_correct = false; len = 0; bytes = env.malloc 0 };
    unused = alloc_packet_buffer_list env 1 7;
    split = refl;
    index = refl;
    eight = refl;
    ready = tt;
    pending = record { short = omega arith; begun = inl refl; allocated = alloc 0 };
    empty = allocated-IsEmpty 1 7;
  }

  -- The header functions return at most 36 and keep the size of the buffer.
  header_size :
      (buf ieee : List ℕ) (use_mcs : Bool) (known flags index type rate port : ℕ)
      → ieee_header type port ≡ some ieee
      → rate ≡ 12
      → (size : ℕ) × (buf' : List ℕ) × ((if use_mcs
            then packet_header_init80211_n buf (mcs_header known flags index) type port
            else packet_header_init buf type rate port)
          ≡ some (size, buf'))
        × (size ≤ 36)
        × (length buf' ≡ length buf)
  unfolding packet_header_init packet_header_init80211_n datarate
  header_size buf ieee true known flags index type rate port hi hr = (
    length ieee,
    memcpy (memcpy buf 0 (mcs_header known flags index)) 13 ieee,
    rw (packet_header_init80211_n, hi) refl,
    omega (arith, length-ieee_header type port ieee hi),
    length-memcpy _ 13 ieee ∙ length-memcpy buf 0 (mcs_header known flags index),
  )
  header_size buf ieee false known flags index type rate port hi hr = (
    12 + length ieee,
    memcpy (memcpy buf 0 (radiotap_header 24)) 12 ieee,
    rw (hr, packet_header_init, hi) refl,
    omega (arith, length-ieee_header type port ieee hi),
    length-memcpy _ 12 ieee ∙ length-memcpy buf 0 (radiotap_header 24),
  )

  -- The stream over one adapter.
  one_stream : ℕ → ℕ → List ℕ → WfbStream
  one_stream sock size buf = record {
    wfb_tx = record { sock = sock ∷ 0 ∷ 0 ∷ 0 ∷ []; count = 1; pcnt = 0 };
    phdr_len = size;
    input_buffer = record { seq_nr = 0; curr_pb = 0; pbl = alloc_packet_buffer_list env 0 8 };
    buf = buf;
  }

  stream_on_one :
      (iface sock size : ℕ) (buf : List ℕ)
      → env.wfb_open_sock iface ≡ some sock
      → stream_on env (inr (iface ∷ [])) (some (size, buf)) ≡ some (pos 0, one_stream sock size buf)
  unfolding stream_on open_all one_stream
  stream_on_one iface sock size buf opens = rw (stream_on, open_all, opens) refl

  -- With one adapter, whose socket opens, a frame type that there is, and malloc() that gives the
  -- 4192 bytes asked for, wfb_stream_init succeeds in either radio mode, and its stream is well
  -- formed and has taken nothing.
  pub wfb_stream_init-IsWellFormed :
      (port type : ℕ) (use_mcs use_stbc use_ldpc : Bool) (iface sock : ℕ) (ieee : List ℕ)
      → env.nl_get_wlan_rt_list ≡ inr (iface ∷ [])
      → env.wfb_open_sock iface ≡ some sock
      → ieee_header type port ≡ some ieee
      → (stream : WfbStream) × (h : ℕ) × (wfb_stream_init env port type use_mcs use_stbc use_ldpc
          ≡ some (pos 0, stream))
        × IsWellFormed h sock (fresh_sender stream)
        × (taken h (fresh_sender stream) ≡ [])
  unfolding wfb_stream_init handed one_stream
  wfb_stream_init-IsWellFormed port type use_mcs use_stbc use_ldpc iface sock ieee one opens hi = (
    one_stream sock header.0 header.1,
    header.0,
    ap₂ (stream_on env) one header.2 ∙ stream_on_one iface sock header.0 header.1 opens,
    record {
      link = record {
        header = refl;
        room = omega (arith, header.3);
        allocated = header.4;
        one_sock = refl;
      };
      buffers = allocated-IsSplit;
      aligned = refl;
    },
    payloads_empty (alloc_packet_buffer_list env 0 8) (allocated-IsEmpty 0 8),
  )
    where
      header :
          (size : ℕ) × (buf' : List ℕ) × ((if use_mcs
              then packet_header_init80211_n
                  (replicate 4192 0)
                  (mcs_header 55 (mcs_flags env use_stbc use_ldpc) 12)
                  type
                  port
              else packet_header_init (replicate 4192 0) type 12 port)
            ≡ some (size, buf'))
          × (size ≤ 36)
          × (length buf' ≡ length {A = ℕ} (replicate 4192 0))
      header =
          header_size (replicate 4192 0) ieee use_mcs 55 (mcs_flags env use_stbc use_ldpc) 12 type
            12 port hi refl
