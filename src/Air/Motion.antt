-- ===== src/Air/Motion.antt =====
-- rhex_air/control/motion.c: what the motion service keeps, and the world it works in. The floats are
-- a parameter with their operations, and so is the CAN protocol, which is in another repository.
pub mod Step
pub mod Control
pub mod Cycle
pub mod Readiness
pub mod Safe
pub mod Quiet
pub mod Runs
pub mod Answers
pub mod Walking
use rhex_service.Base.{
  ℕ, ◌%◌, List, [], ◌∷◌, Bool, true, false, replicate, if◌then◌else◌, length, memcpy,
}
use rhex_service.Base.Int.{ℤ}

-- motion_state_t
pub data MotionState : Type 0 where
  motion_state_off : MotionState
  motion_state_calibrating : MotionState
  motion_state_parking : MotionState
  motion_state_begin_walking : MotionState
  motion_state_walking : MotionState
  motion_state_stop_walking : MotionState

-- leg_side_d
pub data LegSide : Type 0 where
  leg_left : LegSide
  leg_right : LegSide

-- drv_state_t
pub data DriveState : Type 0 where
  drv_state_off : DriveState
  drv_state_ready : DriveState
  drv_state_calibrating : DriveState

-- The operations on floats that the service uses. `literal n d` is the constant n / d; `to_u16` and
-- `to_i16` are the casts.
pub record FloatOps (F : Type 0) : Type 0 where
  pub literal : ℕ → ℕ → F
  pub add : F → F → F
  pub sub : F → F → F
  pub mul : F → F → F
  pub div : F → F → F
  pub neg : F → F
  pub fabs : F → F
  pub gt : F → F → Bool
  pub to_u16 : F → ℕ
  pub to_i16 : F → ℤ

-- drv_status_t
pub record Drive (F : Type 0) : Type 0 where
  pub state : DriveState
  pub side : LegSide
  pub pos : F
  pub phase : F
  pub phase_offset : F

-- The names of proto/can_proto.h, and the bytes of a motion_cmd_t with a drive, a motion type, a
-- position and a speed.
pub record CanProto : Type 0 where
  pub msg_id_get_status : ℕ
  pub msg_id_drv_calibration_start : ℕ
  pub msg_id_drv_leg_stand : ℕ
  pub msg_id_drv_leg_motion : ℕ
  pub msg_type_response : ℕ
  pub motion_type_pos : ℕ
  pub motion_cmd : ℕ → ℕ → ℕ → ℤ → List ℕ

-- struct can_packet_t, with the fields of its can_msg_t that are used.
pub record CanPacket : Type 0 where
  pub src_id : ℕ
  pub dest_id : ℕ
  pub cmd_id : ℕ
  pub msg_type : ℕ
  pub len : ℕ
  pub data_bytes : List ℕ

-- rc_data_t
pub record RcData (F : Type 0) : Type 0 where
  pub speed : F
  pub steering : F
  pub btn : List Bool

-- The static variables, and the packets that were given to send_can_msg().
pub record Motion (F : Type 0) : Type 0 where
  pub motion_state : MotionState
  pub tgt_motion_state : MotionState
  pub drv_status : List (Drive F)
  pub global_phase : F
  pub sent : List CanPacket

-- A packet to a board: `{0, }`, and the fields that are set.
abbrev pub to_board : ℕ → ℕ → List ℕ → CanPacket
to_board dest_id cmd_id bytes = record {
  src_id = 16;
  dest_id = dest_id;
  cmd_id = cmd_id;
  msg_type = 0;
  len = length bytes % 256;
  data_bytes = memcpy (replicate 8 0) 0 bytes;
}

abbrev pub state_is_ready : DriveState → Bool
state_is_ready drv_state_ready = true
state_is_ready drv_state_off = false
state_is_ready drv_state_calibrating = false

-- The loop ends at the first drive that is not ready.
unfoldable pub all_drv_ready : {F : Type 0} → List (Drive F) → Bool
all_drv_ready [] = true
all_drv_ready (d ∷ ds) =
    let rest = all_drv_ready ds in if state_is_ready d.state then rest else false
