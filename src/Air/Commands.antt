-- ===== src/Air/Commands.antt =====
-- rhex_air/control/rhex_rc.c: the commands that the robot receives, a cycle of `rc_main`. The floats
-- are a parameter.
pub mod Buttons
pub mod Received
pub mod Lost
use rhex_service.Base.{
  ℕ, zero, suc, ◌+◌, ◌-◌, ◌*◌, ◌/◌, ◌%◌, ◌^◌, List, [], ◌∷◌, ◌++◌, Bool, Option, none, some,
}
use rhex_service.Base.{if◌then◌else◌, ltb, ◌==◌, get_or, set, get_le32}
use rhex_service.Base.Int.{ℤ, pos, negsuc}
use rhex_service.Wfb.RxPacket.{RxPacket}
use rhex_service.Air.Motion.{RcData}

-- wifibroadcast_rx_status_t_rc, as far as it is used; `signal_dbm` is the field
-- `current_signal_dbm` of each adapter.
pub record CommandStatus : Type 0 where
  pub lost_packet_cnt : ℕ
  pub received_packet_cnt : ℕ
  pub signal_dbm : List ℤ

-- The variables of rc_main, and what was put into the segments "shm_rc" and "shm_rc_status".
pub record Commands (F : Type 0) : Type 0 where
  pub last_seqno : ℕ
  pub rc_data : RcData F
  pub rc_status : CommandStatus
  pub commands : List (RcData F)
  pub statuses : List CommandStatus

-- An int16_t at an offset, as it lies in memory.
abbrev pub get_le16 : List ℕ → ℕ → ℕ
get_le16 bytes i = get_or bytes i 0 + 256 * get_or bytes (i + 1) 0

-- Its value.
abbrev pub to_int16 : ℕ → ℤ
to_int16 n = if ltb n 32768 then pos n else negsuc (65535 - n)

-- The fields of `struct _r`: a sequence number, a word that is not used, and then four axes.
abbrev pub axis_at : List ℕ → ℕ → ℕ
axis_at content k = get_le16 content (6 + 2 * k)

abbrev pub data_at : List ℕ → ℕ → ℕ
data_at content k = get_le16 content (14 + 2 * k)

-- `axis -= 1500`
abbrev pub centred : ℕ → ℤ
centred axis = to_int16 ((axis + 65536 - 1500) % 65536)

-- `n` bits from the number `bit` on.
abbrev pub bits_from : ℕ → ℕ → ℕ → List Bool
bits_from bit zero word = []
bits_from bit (suc n) word = (word / 2 ^ bit % 2 == 1) ∷ bits_from (bit + 1) n word

module _ {F : Type 0} (of_int : ℤ → F) (div : F → F → F) where
  abbrev pub command_of : List ℕ → RcData F
  command_of content = record {
    speed = div (of_int (centred (axis_at content 1))) (of_int (pos 500));
    steering = div (of_int (centred (axis_at content 0))) (of_int (pos 500));
    btn = bits_from 0 16 (data_at content 0) ++ bits_from 0 16 (data_at content 1);
  }

  -- The difference of the sequence numbers in 32 bits.
  abbrev pub seqno_diff : List ℕ → Commands F → ℕ
  seqno_diff content c = (get_le32 content 0 + 2 ^ 32 - c.last_seqno) % 2 ^ 32

  -- A packet that is not older than the last one.
  unfoldable pub take_command : RxPacket → Commands F → Commands F
  take_command rx c =
      let diff = seqno_diff rx.content c in
      let status = c.rc_status in
      let lost =
        if ltb 1 diff then (status.lost_packet_cnt + diff) % 2 ^ 32 else status.lost_packet_cnt in
      record c {
        rc_data = command_of rx.content;
        commands = c.commands ++ (command_of rx.content ∷ []);
        rc_status = record status {
          lost_packet_cnt = lost;
          received_packet_cnt = (status.received_packet_cnt + 1) % 2 ^ 32;
        };
      }

  unfoldable pub read_command : RxPacket → Commands F → Commands F
  read_command rx c =
      let c1 = if ltb (seqno_diff rx.content c) (2 ^ 31 - 1) then take_command rx c else c in
      record c1 {
        rc_status = record c1.rc_status {
          signal_dbm = set c1.rc_status.signal_dbm rx.adapter rx.dbm;
        };
      }

  -- `received` is the packet, when wfb_rx_packet() has a result above 0.
  abbrev pub take_received : Option RxPacket → Commands F → Commands F
  take_received none c = c
  take_received (some rx) c = read_command rx c

  unfoldable pub rc_cycle : Option RxPacket → Commands F → Commands F
  rc_cycle received c =
      let c1 = take_received received c in
      record c1 { statuses = c1.statuses ++ (c1.rc_status ∷ []) }

  unfoldable pub rc_cycles : List (Option RxPacket) → Commands F → Commands F
  rc_cycles [] c = c
  rc_cycles (r ∷ rs) c = rc_cycles rs (rc_cycle r c)
