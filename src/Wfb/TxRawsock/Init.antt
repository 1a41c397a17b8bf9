-- ===== src/Wfb/TxRawsock/Init.antt =====
-- `wfb_stream_init` of libwfb/wfb_tx_rawsock.c, with the allocation of its packet buffers.
pub mod Start
use rhex_service.Base.{
  ℕ, zero, suc, ◌+◌, List, [], ◌∷◌, Bool, true, false, Option, none, some, ◌⊎◌, inl, inr,
}
use rhex_service.Base.{if◌then◌else◌, set, replicate}
use rhex_service.Base.Int.{ℤ, pos}
use rhex_service.Wfb.Packet.{PacketBuffer, param_data_packets_per_block, max_packet_length}
use rhex_service.Wfb.Io.{Io}
use rhex_service.Wfb.TxRawsock.{WfbTx, InputBuffer, WfbStream, Sender}
use rhex_service.Wfb.TxRawsock.Header.{mcs_header, packet_header_init, packet_header_init80211_n}

-- What the system answers: what the n-th malloc() block of MAX_PACKET_LENGTH bytes holds, the
-- adapters or the error of nl_get_wlan_rt_list(), and the socket of wfb_open_sock(), `none` for -1.
pub record InitEnv : Type 0 where
  pub malloc : ℕ → List ℕ
  pub nl_get_wlan_rt_list : ℤ ⊎ List ℕ
  pub wfb_open_sock : ℕ → Option ℕ

module _ (env : InitEnv) where
  -- The packet buffers from the `i`-th on.
  unfoldable pub alloc_packet_buffer_list : ℕ → ℕ → List PacketBuffer
  alloc_packet_buffer_list i zero = []
  alloc_packet_buffer_list i (suc n) =
      record { valid = false; crc_correct = false; len = 0; bytes = env.malloc i }
      ∷ alloc_packet_buffer_list (i + 1) n

  -- The loop over the adapters; `none` is the exit(1) of `wfb_open_rawsock`.
  unfoldable pub open_all : List ℕ → WfbTx → Option WfbTx
  open_all [] tx = some tx
  open_all (iface ∷ ifaces) tx = elim (env.wfb_open_sock iface) [
    | none ↦ none
    | some sock ↦
        open_all ifaces (record tx { sock = set tx.sock tx.count sock; count = tx.count + 1 })
  ]

  -- The stream after memset().
  abbrev pub zero_stream : WfbStream
  zero_stream = record {
    wfb_tx = record { sock = replicate 4 0; count = 0; pcnt = 0 };
    phdr_len = 0;
    input_buffer = record { seq_nr = 0; curr_pb = 0; pbl = [] };
    buf = replicate max_packet_length 0;
  }

  abbrev pub mcs_flags : Bool → Bool → ℕ
  mcs_flags use_stbc use_ldpc = (if use_stbc then 32 else 0) + (if use_ldpc then 16 else 0)

  -- The header that is chosen by the radio mode. 55 is `mcs_known`, 12 the data rate.
  abbrev pub stream_header : ℕ → ℕ → Bool → Bool → Bool → Option (ℕ × List ℕ)
  stream_header port packet_type use_mcs use_stbc use_ldpc =
      if use_mcs
      then packet_header_init80211_n (replicate max_packet_length 0)
          (mcs_header 55 (mcs_flags use_stbc use_ldpc) 12) packet_type port
      else packet_header_init (replicate max_packet_length 0) packet_type 12 port

  -- The rest of the stream, made from the adapters and the header.
  unfoldable pub stream_on : ℤ ⊎ List ℕ → Option (ℕ × List ℕ) → Option (ℤ × WfbStream)
  stream_on (inl err) header = some (err, zero_stream)
  stream_on (inr ifaces) none = none
  stream_on (inr ifaces) (some (size, buf)) = elim (open_all ifaces zero_stream.wfb_tx) [
    | none ↦ none
    | some tx ↦ some (
      pos 0,
      record {
        wfb_tx = tx;
        phdr_len = size;
        input_buffer = record {
          seq_nr = 0;
          curr_pb = 0;
          pbl = alloc_packet_buffer_list 0 param_data_packets_per_block;
        };
        buf = buf;
      },
    )
  ]

  -- The result and the stream; `none` is an exit(1).
  unfoldable pub wfb_stream_init : ℕ → ℕ → Bool → Bool → Bool → Option (ℤ × WfbStream)
  wfb_stream_init port packet_type use_mcs use_stbc use_ldpc =
      stream_on env.nl_get_wlan_rt_list (stream_header port packet_type use_mcs use_stbc use_ldpc)

-- A stream with the initial values of the static variables.
abbrev pub fresh_sender : WfbStream → Sender
fresh_sender stream = record {
  stream = stream;
  skipfec = pos 0;
  block_cnt = 0;
  took_last = 0;
  took = 0;
  injection_time_now = 0;
  injection_time_prev = 0;
  io = record { clock_reads = 0; writes = 0; frames = [] };
}
