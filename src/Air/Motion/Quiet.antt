-- ===== src/Air/Motion/Quiet.antt =====
-- A robot of which not all drives have answered.
use rhex_service.Base.{◌≡◌, refl, sym, ap, ◌∙◌, false, not, Option, none, some, inl, inr, ◌+◌, ◌*◌}
use rhex_service.Base.{if◌then◌else◌, ◌==◌, if_intro, Bool-cases, get_or}
use rhex_service.Air.Motion.{
  MotionState, motion_state_off, motion_state_calibrating, motion_state_parking,
  motion_state_begin_walking, motion_state_walking, motion_state_stop_walking, FloatOps, CanProto,
  CanPacket, RcData, Motion, all_drv_ready,
}
use rhex_service.Air.Motion.Cycle.{take_inbox, cycle, do_motion_defined}
use rhex_service.Air.Motion.Control.{
  set_ready, board_of, take_msg, change_state, walk, move_in, read_buttons, move, do_motion,
  state_number,
}
use rhex_service.Air.Motion.Step.{make_step}
use rhex_service.Air.Motion.Readiness.{
  flags-make_step, flags-cycle, flags-change_state, drives-read_buttons, same-flags,
}

-- What was sent from `m` on is nothing, unless the drives are all ready.
abbrev IsQuiet : {F : Type 0} → Motion F → Motion F → Type 0
IsQuiet m r = all_drv_ready r.drv_status ≡ false → r.sent ≡ m.sent

module _ {F : Type 0} (fl : FloatOps F) (proto : CanProto) where
  take_msg-IsQuiet : (msg : CanPacket) (m : Motion F) → IsQuiet m (take_msg fl proto msg m)
  unfolding take_msg
  take_msg-IsQuiet msg m =
      let i = board_of fl proto msg * 2 in
      let both = set_ready fl proto (i + 1) (set_ready fl proto i m.drv_status) in
      let walked : Motion F = record m {
        drv_status = both;
        motion_state = motion_state_off;
        tgt_motion_state = motion_state_off;
      } in
      let slow = fl.literal 1 10 in
      let straight = fl.literal 0 1 in
      let stepped : all_drv_ready (make_step fl proto slow straight walked).drv_status
          ≡ all_drv_ready both =
        same-flags both (make_step fl proto slow straight walked).drv_status
          (flags-make_step fl proto slow straight walked) in
      if_intro {A = Motion F} (IsQuiet m) (not (msg.msg_type == proto.msg_type_response))
        (λ e. refl)
        (if_intro {A = Motion F} (IsQuiet m) (msg.cmd_id == proto.msg_id_get_status)
          (elim (Bool-cases (all_drv_ready both)) [
            | inl r ↦ rw r (λ e. absurd (cc (e, stepped, r)))
            | inr r ↦ rw r (λ e. refl)
          ])
          (if_intro {A = Motion F} (IsQuiet m) (msg.cmd_id == proto.msg_id_drv_calibration_start)
            (λ e. refl)
            (if_intro {A = Motion F} (IsQuiet m) (msg.cmd_id == proto.msg_id_drv_leg_stand)
              (λ e. refl) (λ e. refl))))

  take_inbox-IsQuiet :
      (inbox : Option CanPacket) (m : Motion F) → IsQuiet m (take_inbox fl proto inbox m)
  take_inbox-IsQuiet none m = λ e. refl
  take_inbox-IsQuiet (some msg) m = take_msg-IsQuiet msg m

  sent-read_buttons : (rc : RcData F) (m : Motion F) → (read_buttons fl proto rc m).sent ≡ m.sent
  sent-read_buttons rc m =
      let m1 =
        if get_or rc.btn 0 false then record m { tgt_motion_state = motion_state_walking } else m in
      let first : m1.sent ≡ m.sent =
        if_intro {A = Motion F} (λ r. r.sent ≡ m.sent) (get_or rc.btn 0 false) refl refl in
      if_intro {A = Motion F} (λ r. r.sent ≡ m.sent) (get_or rc.btn 1 false) first first

  sent-change_state :
      (m : Motion F) → all_drv_ready m.drv_status ≡ false → (change_state fl proto m).sent ≡ m.sent
  unfolding change_state
  sent-change_state m e =
      if_intro {A = Motion F} (λ r. r.sent ≡ m.sent)
        (state_number m.tgt_motion_state == state_number m.motion_state) refl (rw e refl)

  sent-walk :
      (rc : RcData F) (m : Motion F)
      → all_drv_ready m.drv_status ≡ false
      → (walk fl proto rc m).sent ≡ m.sent
  unfolding walk
  sent-walk rc m e = rw e refl

  sent-move_in :
      (s : MotionState) (rc : RcData F) (m : Motion F)
      → all_drv_ready m.drv_status ≡ false
      → (move_in fl proto s rc m).sent ≡ m.sent
  unfolding move_in
  sent-move_in motion_state_off rc m e = refl
  sent-move_in motion_state_calibrating rc m e = refl
  sent-move_in motion_state_parking rc m e = refl
  sent-move_in motion_state_begin_walking rc m e = sent-walk rc m e
  sent-move_in motion_state_walking rc m e = sent-walk rc m e
  sent-move_in motion_state_stop_walking rc m e = sent-walk rc m e

  cycle_quiet :
      (inbox : Option CanPacket) (rc : RcData F) (m : Motion F)
      → all_drv_ready (cycle fl proto inbox rc m).drv_status ≡ false
      → (cycle fl proto inbox rc m).sent ≡ m.sent
  unfolding cycle move
  cycle_quiet inbox rc m e =
      let m1 = take_inbox fl proto inbox m in
      let m2 = read_buttons fl proto rc m1 in
      let m3 = change_state fl proto m2 in
      let parsed : all_drv_ready m1.drv_status ≡ false =
        sym (same-flags m1.drv_status _ (flags-cycle fl proto inbox rc m)) ∙ e in
      let pressed : all_drv_ready m2.drv_status ≡ false =
        ap all_drv_ready (drives-read_buttons fl proto rc m1) ∙ parsed in
      let changed : all_drv_ready m3.drv_status ≡ false =
        same-flags m2.drv_status _ (flags-change_state fl proto m2) ∙ pressed in
      sent-move_in m3.motion_state rc m3 changed
      ∙ sent-change_state m2 pressed
      ∙ sent-read_buttons rc m1
      ∙ take_inbox-IsQuiet inbox m parsed

  -- A cycle that does not write past the array of drives, and after which some drive is not ready,
  -- has sent nothing to the drives.
  pub do_motion_quiet :
      (inbox : Option CanPacket) (rc : RcData F) (m m' : Motion F)
      → do_motion fl proto inbox rc m ≡ some m'
      → all_drv_ready m'.drv_status ≡ false
      → m'.sent ≡ m.sent
  do_motion_quiet inbox rc m m' run e =
      let same = do_motion_defined fl proto inbox rc m m' run in
      ap (λ r. r.sent) (sym same)
      ∙ cycle_quiet inbox rc m (ap (λ r. all_drv_ready r.drv_status) same ∙ e)
