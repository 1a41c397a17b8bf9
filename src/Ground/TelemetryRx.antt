-- ===== src/Ground/TelemetryRx.antt =====
-- rhex_ground/rhex_telemetry_rx.c: the filter of repeated telemetry packets, `process_packet`.
pub mod Fits
pub mod Window
pub mod Once
pub mod Sent
use rhex_service.Base.{
  ℕ, zero, suc, ◌+◌, ◌-◌, ◌*◌, ◌/◌, ◌%◌, ◌^◌, List, [], ◌∷◌, ◌++◌, Bool, true, false, Option, none,
  some,
}
use rhex_service.Base.{
  if◌then◌else◌, ltb, leb, ◌==◌, ◌||◌, take, drop, get_or, set, memcpy, get_le32, replicate,
}
use rhex_service.Wfb.RxPacket.{RxPacket}
use rhex_service.Base.Int.{ℤ, pos, negsuc, ltb_ℤ}

-- buffer_t
pub record TelemetrySlot : Type 0 where
  pub seq : ℕ
  pub len : ℕ
  pub filled : Bool
  pub payload : List ℕ

-- wifi_adapter_rx_status_t, as far as it is used
pub record AdapterStatus : Type 0 where
  pub received_packet_cnt : ℕ
  pub current_signal_dbm : ℤ

-- wifibroadcast_rx_status_t_rc, as far as it is used
pub record RcStatus : Type 0 where
  pub last_update : ℕ
  pub adapter : List AdapterStatus

-- The static variables, what was put into shared memory and what was sent, and the number of
-- clock reads and of sendto() calls.
pub record Telemetry : Type 0 where
  pub buffer : List TelemetrySlot
  pub buf_pos : ℕ
  pub lastseq : ℕ
  pub status : RcStatus
  pub published : List RcStatus
  pub sent : List (List ℕ)
  pub clock_reads : ℕ
  pub sends : ℕ

-- The n-th svc_get_monotime(), and whether the n-th sendto() fails.
pub record TelemetryEnv : Type 0 where
  pub monotime : ℕ → ℕ
  pub sendto_fails : ℕ → Bool

abbrev pub buf_sz : ℕ
buf_sz = 100

-- The size of a slot's payload.
abbrev pub payload_size : ℕ
payload_size = 400

abbrev pub no_slot : TelemetrySlot
no_slot = record { seq = 0; len = 0; filled = false; payload = [] }

abbrev pub no_adapter : AdapterStatus
no_adapter = record { received_packet_cnt = 0; current_signal_dbm = pos 0 }

-- The fields of `struct header_s`: the sequence number, the length, and the data behind them.
abbrev pub seqnumber : RxPacket → ℕ
seqnumber p = get_le32 p.content 0

abbrev pub data_length : RxPacket → ℕ
data_length p = get_or p.content 4 0 + 256 * get_or p.content 5 0

abbrev pub packet_data : RxPacket → List ℕ
packet_data p = take (data_length p) (drop 6 p.content)

-- The loop that looks for the sequence number.
unfoldable pub has_seq : ℕ → List TelemetrySlot → Bool
has_seq seq [] = false
has_seq seq (s ∷ slots) = let rest = has_seq seq slots in if s.seq == seq then true else rest

module _ (env : TelemetryEnv) where
  unfoldable pub count_received : RxPacket → Telemetry → Telemetry
  count_received p t =
      let a : AdapterStatus = get_or t.status.adapter p.adapter no_adapter in
      let a' : AdapterStatus = record a {
        current_signal_dbm = if ltb_ℤ (negsuc 126) p.dbm then p.dbm else a.current_signal_dbm;
        received_packet_cnt = (a.received_packet_cnt + 1) % 2 ^ 32;
      } in
      let status : RcStatus = record {
        last_update = env.monotime t.clock_reads;
        adapter = set t.status.adapter p.adapter a';
      } in
      record t {
        status = status;
        published = t.published ++ (status ∷ []);
        clock_reads = t.clock_reads + 1;
      }

  -- A new packet that fits in a slot: copied, sent, and remembered if it was sent.
  unfoldable pub forward : RxPacket → Telemetry → Telemetry
  forward p t =
      let slot : TelemetrySlot = get_or t.buffer t.buf_pos no_slot in
      let copied : TelemetrySlot = record slot {
        payload = memcpy slot.payload 0 (packet_data p);
      } in
      if env.sendto_fails t.sends
      then record t { buffer = set t.buffer t.buf_pos copied; sends = t.sends + 1 }
      else record t {
        buffer =
            set t.buffer t.buf_pos
              (record copied { len = data_length p; seq = seqnumber p; filled = true });
        buf_pos = if leb buf_sz (t.buf_pos + 1) then 0 else t.buf_pos + 1;
        sent = t.sent ++ (packet_data p ∷ []);
        sends = t.sends + 1;
      }

  -- `none`: the data go past the end of the slot's payload, and the behaviour of the program is not
  -- defined.
  unfoldable pub process_packet : RxPacket → Telemetry → Option Telemetry
  process_packet p t0 =
      let t = count_received p t0 in
      if has_seq (seqnumber p) t.buffer
      then some t
      else if ltb (2 ^ 31 - 1) ((seqnumber p + 2 ^ 32 - t.lastseq) % 2 ^ 32)
      then some t
      else if ltb payload_size (data_length p)
      then none
      else some (forward p t)

  unfoldable pub process_packets : List RxPacket → Telemetry → Option Telemetry
  process_packets [] t = some t
  process_packets (p ∷ ps) t = elim (process_packet p t) [
    | none ↦ none
    | some t1 ↦ process_packets ps t1
  ]
