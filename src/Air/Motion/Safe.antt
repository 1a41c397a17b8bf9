-- ===== src/Air/Motion/Safe.antt =====
-- Which states the motion service reaches, and when it commands the drives.
use rhex_service.Base.{
  ◌≡◌, ◌⊎◌, inl, inr, refl, sym, subst, ◌∙◌, List, Bool, true, false, not, Option, none, some, ◌+◌,
  ◌*◌,
}
use rhex_service.Base.{if◌then◌else◌, ◌==◌, get_or, if_intro, Bool-cases}
use rhex_service.Air.Motion.{
  MotionState, motion_state_off, motion_state_calibrating, motion_state_parking,
  motion_state_begin_walking, motion_state_walking, motion_state_stop_walking, FloatOps, Drive,
  CanProto, CanPacket, RcData, Motion, all_drv_ready,
}
use rhex_service.Air.Motion.Step.{make_step}
use rhex_service.Air.Motion.Cycle.{take_inbox, cycle, do_motion_defined}
use rhex_service.Air.Motion.Control.{
  set_ready, board_of, drive_of, take_msg, parking_all, enter_state, change_state, walk, move_in,
  read_buttons, move, do_motion, state_number,
}
use rhex_service.Air.Motion.Readiness.{
  flags, Kept, Kept-refl, flags-make_step, ready-flags, same-flags, flags-parking_all,
  take_msg-Kept,
}

-- The states that are used: off, parking and walking.
abbrev pub in_use : MotionState → Bool
in_use motion_state_off = true
in_use motion_state_calibrating = false
in_use motion_state_parking = true
in_use motion_state_begin_walking = false
in_use motion_state_walking = true
in_use motion_state_stop_walking = false

-- Both states are in use, and the robot is off or all its drives are ready.
pub record IsSafe {F : Type 0} (m : Motion F) : Type 0 where
  pub state : in_use m.motion_state ≡ true
  pub target : in_use m.tgt_motion_state ≡ true
  pub ready : (m.motion_state ≡ motion_state_off) ⊎ (all_drv_ready m.drv_status ≡ true)

-- A state in which the service can be: fresh static variables, or a cycle later.
pub data Reachable {F : Type 0} (fl : FloatOps F) (proto : CanProto) : Motion F → Type 0 where
  started :
      (ds : List (Drive F)) (phase : F) (sent : List CanPacket)
      → Reachable fl proto (record {
        motion_state = motion_state_off;
        tgt_motion_state = motion_state_off;
        drv_status = ds;
        global_phase = phase;
        sent = sent;
      })
  cycled :
      (m m' : Motion F) (inbox : Option CanPacket) (rc : RcData F)
      → do_motion fl proto inbox rc m ≡ some m'
      → Reachable fl proto m
      → Reachable fl proto m'

-- A state in use, which is that of `m` or off.
abbrev IsSettled : {F : Type 0} → Motion F → Motion F → Type 0
IsSettled m r =
    (in_use r.motion_state ≡ true)
    × (in_use r.tgt_motion_state ≡ true)
    × ((r.motion_state ≡ motion_state_off) ⊎ (r.motion_state ≡ m.motion_state))

module _ {F : Type 0} where
  still_ready :
      (s : MotionState) (ds es : List (Drive F))
      → Kept (flags ds) (flags es)
      → (s ≡ motion_state_off) ⊎ (all_drv_ready ds ≡ true)
      → (s ≡ motion_state_off) ⊎ (all_drv_ready es ≡ true)
  still_ready s ds es kept (inl off) = inl off
  still_ready s ds es kept (inr ready) = inr (ready-flags ds es kept ready)

module _ {F : Type 0} (fl : FloatOps F) (proto : CanProto) where
  make_step-IsSafe :
      (speed steering : F) (m : Motion F) → IsSafe m → IsSafe (make_step fl proto speed steering m)
  unfolding make_step
  make_step-IsSafe speed steering m v = record {
    state = v.state;
    target = v.target;
    ready =
        still_ready m.motion_state m.drv_status (make_step fl proto speed steering m).drv_status
          (subst (Kept (flags m.drv_status)) (sym (flags-make_step fl proto speed steering m))
            (Kept-refl (flags m.drv_status)))
          v.ready;
  }

  take_msg-IsSettled :
      (msg : CanPacket) (m : Motion F) → IsSafe m → IsSettled m (take_msg fl proto msg m)
  unfolding take_msg make_step
  take_msg-IsSettled msg m v =
      let i = board_of fl proto msg * 2 in
      let one = set_ready fl proto (i + drive_of fl proto msg) m.drv_status in
      let both = set_ready fl proto (i + 1) (set_ready fl proto i m.drv_status) in
      let kept : IsSettled m m = (v.state, v.target, inr refl) in
      if_intro {A = Motion F} (IsSettled m) (not (msg.msg_type == proto.msg_type_response)) kept (
        if_intro {A = Motion F} (IsSettled m) (msg.cmd_id == proto.msg_id_get_status)
          (if_intro {A = Motion F} (IsSettled m) (all_drv_ready both) (refl, refl, inl refl)
            (v.state, v.target, inr refl))
          (if_intro {A = Motion F} (IsSettled m) (msg.cmd_id == proto.msg_id_drv_calibration_start)
            (
              v.state,
              if_intro {A = MotionState} (λ s. in_use s ≡ true) (all_drv_ready one) refl v.target,
              inr refl,
            )
            (if_intro {A = Motion F} (IsSettled m) (msg.cmd_id == proto.msg_id_drv_leg_stand)
              (v.state, v.target, inr refl) kept)))

  take_msg-IsSafe : (msg : CanPacket) (m : Motion F) → IsSafe m → IsSafe (take_msg fl proto msg m)
  take_msg-IsSafe msg m v =
      let (state, target, settled) = take_msg-IsSettled msg m v in
      record {
        state = state;
        target = target;
        ready = elim settled [
          | inl off ↦ inl off
          | inr same ↦
              subst
                (λ s.
                  (s ≡ motion_state_off)
                  ⊎ (all_drv_ready (take_msg fl proto msg m).drv_status ≡ true))
                (sym same)
                (still_ready m.motion_state m.drv_status (take_msg fl proto msg m).drv_status
                  (take_msg-Kept fl proto msg m) v.ready)
        ];
      }

  take_inbox-IsSafe :
      (inbox : Option CanPacket) (m : Motion F) → IsSafe m → IsSafe (take_inbox fl proto inbox m)
  take_inbox-IsSafe none m v = v
  take_inbox-IsSafe (some msg) m v = take_msg-IsSafe msg m v

  read_buttons-IsSafe :
      (rc : RcData F) (m : Motion F) → IsSafe m → IsSafe (read_buttons fl proto rc m)
  read_buttons-IsSafe rc m v =
      let m1 =
        if get_or rc.btn 0 false then record m { tgt_motion_state = motion_state_walking } else m in
      let first : IsSafe m1 =
        if_intro {A = Motion F} IsSafe (get_or rc.btn 0 false)
          (record { state = v.state; target = refl; ready = v.ready }) v in
      if_intro {A = Motion F} IsSafe (get_or rc.btn 1 false)
        (record { state = first.state; target = refl; ready = first.ready }) first

  enter_state-IsSafe :
      (s : MotionState) (m : Motion F)
      → in_use s ≡ true
      → all_drv_ready m.drv_status ≡ true
      → IsSafe m
      → IsSafe (enter_state fl proto s m)
  unfolding enter_state parking_all
  enter_state-IsSafe motion_state_off m used r v = v
  enter_state-IsSafe motion_state_calibrating m used r v = absurd (cc used)
  enter_state-IsSafe motion_state_parking m used r v = record {
    state = refl;
    target = v.target;
    ready = inr (same-flags _ _ (flags-parking_all fl proto m) ∙ r);
  }
  enter_state-IsSafe motion_state_begin_walking m used r v = absurd (cc used)
  enter_state-IsSafe motion_state_walking m used r v = record {
    state = refl;
    target = v.target;
    ready = inr r;
  }
  enter_state-IsSafe motion_state_stop_walking m used r v = absurd (cc used)

  change_state-IsSafe : (m : Motion F) → IsSafe m → IsSafe (change_state fl proto m)
  unfolding change_state
  change_state-IsSafe m v =
      if_intro {A = Motion F} IsSafe
        (state_number m.tgt_motion_state == state_number m.motion_state) v
        (elim (Bool-cases (all_drv_ready m.drv_status)) [
          | inl r ↦ rw r (enter_state-IsSafe m.tgt_motion_state m v.target r v)
          | inr r ↦ rw r v
        ])

  walk-IsSafe : (rc : RcData F) (m : Motion F) → IsSafe m → IsSafe (walk fl proto rc m)
  unfolding walk
  walk-IsSafe rc m v =
      if_intro {A = Motion F} IsSafe (all_drv_ready m.drv_status)
        (make_step-IsSafe rc.speed rc.steering m v) v

  move_in-IsSafe :
      (s : MotionState) (rc : RcData F) (m : Motion F) → IsSafe m → IsSafe (move_in fl proto s rc m)
  unfolding move_in
  move_in-IsSafe motion_state_off rc m v = v
  move_in-IsSafe motion_state_calibrating rc m v = v
  move_in-IsSafe motion_state_parking rc m v = v
  move_in-IsSafe motion_state_begin_walking rc m v = walk-IsSafe rc m v
  move_in-IsSafe motion_state_walking rc m v = walk-IsSafe rc m v
  move_in-IsSafe motion_state_stop_walking rc m v = walk-IsSafe rc m v

  cycle-IsSafe :
      (inbox : Option CanPacket) (rc : RcData F) (m : Motion F)
      → IsSafe m
      → IsSafe (cycle fl proto inbox rc m)
  unfolding cycle move
  cycle-IsSafe inbox rc m v = move_in-IsSafe _ rc _ (
      change_state-IsSafe _
        (read_buttons-IsSafe rc (take_inbox fl proto inbox m) (take_inbox-IsSafe inbox m v)))

  -- After any cycles from the start, whatever packets and commands come, as long as no response
  -- writes past the array of drives (one to the three commands that parse_msg knows, from a board
  -- other than 1, 2 and 3, does), the state and its target are each off, parking or walking, never
  -- calibrating, and the state is off or all six drives are ready.
  pub Reachable-IsSafe : (m : Motion F) → Reachable fl proto m → IsSafe m
  Reachable-IsSafe m (started ds phase sent) = record {
    state = refl;
    target = refl;
    ready = inl refl;
  }
  Reachable-IsSafe m (cycled m0 m1 inbox rc e r) =
      subst IsSafe (do_motion_defined fl proto inbox rc m0 m1 e)
        (cycle-IsSafe inbox rc m0 (Reachable-IsSafe m0 r))
