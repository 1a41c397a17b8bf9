-- ===== src/Air/Motion/Control.antt =====
-- The state machine: parse_msg, do_motion and motion_init.
use rhex_service.Base.{
  ℕ, zero, suc, ◌+◌, ◌*◌, ◌%◌, List, [], ◌∷◌, ◌++◌, Bool, false, not, Option, none, some,
}
use rhex_service.Base.{if◌then◌else◌, ◌==◌, ◌||◌, leb, get_or}
use rhex_service.Air.Motion.{
  MotionState, motion_state_off, motion_state_calibrating, motion_state_parking,
  motion_state_begin_walking, motion_state_walking, motion_state_stop_walking, leg_left, leg_right,
  LegSide, drv_state_off, drv_state_ready, FloatOps, Drive, CanProto, CanPacket, RcData, Motion,
  to_board, all_drv_ready,
}
use rhex_service.Air.Motion.Step.{make_step}

-- The numbers of the constants.
abbrev pub state_number : MotionState → ℕ
state_number motion_state_off = 0
state_number motion_state_calibrating = 1
state_number motion_state_parking = 2
state_number motion_state_begin_walking = 3
state_number motion_state_walking = 4
state_number motion_state_stop_walking = 5

-- One drive's record in the array; a number past the end has none.
abbrev pub change {ℓ} : {A : Type ℓ} → (A → A) → ℕ → List A → List A
change f i [] = []
change f zero (x ∷ xs) = f x ∷ xs
change f (suc i) (x ∷ xs) = x ∷ change f i xs

module _ {F : Type 0} (fl : FloatOps F) (proto : CanProto) where
  abbrev pub set_ready : ℕ → List (Drive F) → List (Drive F)
  set_ready i ds = change (λ d. record d { state = drv_state_ready }) i ds

  -- `uint8_t b = src_id - 1U`
  abbrev pub board_of : CanPacket → ℕ
  board_of msg = (msg.src_id + 255) % 256

  -- `msg->data[0] & 0x1U`
  abbrev pub drive_of : CanPacket → ℕ
  drive_of msg = get_or msg.data_bytes 0 0 % 2

  -- The rest of parse_msg for a packet that does not write past the array.
  unfoldable pub take_msg : CanPacket → Motion F → Motion F
  take_msg msg m =
      let b = board_of msg in
      let both = set_ready (b * 2 + 1) (set_ready (b * 2) m.drv_status) in
      let one = set_ready (b * 2 + drive_of msg) m.drv_status in
      if not (msg.msg_type == proto.msg_type_response)
      then m
      else if msg.cmd_id == proto.msg_id_get_status
      then (if all_drv_ready both
          then make_step fl proto (fl.literal 1 10) (fl.literal 0 1) (record m {
            drv_status = both;
            motion_state = motion_state_off;
            tgt_motion_state = motion_state_off;
          })
          else record m { drv_status = both })
      else if msg.cmd_id == proto.msg_id_drv_calibration_start
      then record m {
        drv_status = one;
        tgt_motion_state = if all_drv_ready one then motion_state_parking else m.tgt_motion_state;
      }
      else if msg.cmd_id == proto.msg_id_drv_leg_stand
      then record m { drv_status = one }
      else m

  -- Whether parse_msg writes to drives: for these responses.
  abbrev pub writes_drives : CanPacket → Bool
  writes_drives msg =
      if msg.msg_type == proto.msg_type_response
      then msg.cmd_id == proto.msg_id_get_status
        || msg.cmd_id == proto.msg_id_drv_calibration_start
        || msg.cmd_id == proto.msg_id_drv_leg_stand
      else false

  -- A drive past the end of drv_status: the board is none of the three.
  unfoldable pub is_past_end : CanPacket → Bool
  is_past_end msg = if writes_drives msg then leb 3 (board_of msg) else false

  -- `none`: it writes past the array, and the behaviour of the program is not defined.
  unfoldable pub parse_msg : CanPacket → Motion F → Option (Motion F)
  parse_msg msg m = if is_past_end msg then none else some (take_msg msg m)

  abbrev pub start_msg : List CanPacket
  start_msg =
      to_board 1 proto.msg_id_get_status []
      ∷ to_board 2 proto.msg_id_get_status []
      ∷ to_board 3 proto.msg_id_get_status []
      ∷ []

  -- The two commands for the drives of a board.
  abbrev pub both_drives : ℕ → ℕ → List CanPacket
  both_drives dest_id cmd_id =
      to_board dest_id cmd_id (0 ∷ []) ∷ to_board dest_id cmd_id (1 ∷ []) ∷ []

  abbrev pub all_boards : ℕ → List CanPacket
  all_boards cmd_id = both_drives 1 cmd_id ++ both_drives 2 cmd_id ++ both_drives 3 cmd_id

  abbrev pub park : Drive F → Drive F
  park d = record d { pos = fl.literal 192 1; phase = fl.literal 1 4 }

  unfoldable pub parking_all : Motion F → Motion F
  parking_all m = record m {
    drv_status = change park 5 (
        change park 4 (change park 3 (change park 2 (change park 1 (change park 0 m.drv_status)))));
    sent = m.sent ++ all_boards proto.msg_id_drv_leg_stand;
  }

  unfoldable pub calibrate_all : Motion F → Motion F
  calibrate_all m = record m { sent = m.sent ++ all_boards proto.msg_id_drv_calibration_start }

  -- The switch over the target state.
  unfoldable pub enter_state : MotionState → Motion F → Motion F
  enter_state motion_state_off m = m
  enter_state motion_state_calibrating m = record (calibrate_all m) {
    motion_state = motion_state_calibrating;
  }
  enter_state motion_state_parking m = record (parking_all m) {
    motion_state = motion_state_parking;
  }
  enter_state motion_state_begin_walking m = record m { motion_state = motion_state_walking }
  enter_state motion_state_walking m = record m { motion_state = motion_state_walking }
  enter_state motion_state_stop_walking m = record m { motion_state = motion_state_walking }

  -- The new state, when the drives are ready for it.
  unfoldable pub change_state : Motion F → Motion F
  change_state m =
      if state_number m.tgt_motion_state == state_number m.motion_state
      then m
      else if all_drv_ready m.drv_status
      then enter_state m.tgt_motion_state m
      else m

  unfoldable pub walk : RcData F → Motion F → Motion F
  walk rc m = if all_drv_ready m.drv_status then make_step fl proto rc.speed rc.steering m else m

  -- The switch over the state.
  unfoldable pub move_in : MotionState → RcData F → Motion F → Motion F
  move_in motion_state_off rc m = m
  move_in motion_state_calibrating rc m = m
  move_in motion_state_parking rc m = m
  move_in motion_state_begin_walking rc m = walk rc m
  move_in motion_state_walking rc m = walk rc m
  move_in motion_state_stop_walking rc m = walk rc m

  abbrev pub read_buttons : RcData F → Motion F → Motion F
  read_buttons rc m =
      let m1 =
        if get_or rc.btn 0 false then record m { tgt_motion_state = motion_state_walking } else m in
      if get_or rc.btn 1 false then record m1 { tgt_motion_state = motion_state_parking } else m1

  -- `inbox` is what read_can_msg() gives.
  unfoldable pub parse_inbox : Option CanPacket → Motion F → Option (Motion F)
  parse_inbox none m = some m
  parse_inbox (some msg) m = parse_msg msg m

  -- What follows in do_motion.
  unfoldable pub move : RcData F → Motion F → Motion F
  move rc m = let m1 = change_state (read_buttons rc m) in move_in m1.motion_state rc m1

  unfoldable pub do_motion : Option CanPacket → RcData F → Motion F → Option (Motion F)
  do_motion inbox rc m = elim (parse_inbox inbox m) [ none ↦ none | some m1 ↦ some (move rc m1) ]

  -- `ds` is the static array.
  abbrev pub motion_init : List (Drive F) → List (Drive F)
  motion_init ds = init_leg 5 leg_left 0 (
      init_leg 4 leg_right 1 (
        init_leg 3 leg_right 0
          (init_leg 2 leg_left 1 (init_leg 1 leg_right 1 (init_leg 0 leg_left 0 ds)))))
    where
      -- The offset is half of `n`.
      init_leg : ℕ → LegSide → ℕ → List (Drive F) → List (Drive F)
      init_leg i side n l =
          change
            (λ d. record d { side = side; phase_offset = fl.literal n 2; state = drv_state_off }) i
            l
