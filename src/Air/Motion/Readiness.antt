-- ===== src/Air/Motion/Readiness.antt =====
-- Which drives are known to be ready, through a cycle of the motion service.
use rhex_service.Base.{
  ℕ, zero, suc, ◌+◌, ◌*◌, ◌<◌, ◌≡◌, refl, sym, ap, subst, ◌∙◌, arith, List, [], ◌∷◌, Bool, true,
  false, not, Option, map,
}
use rhex_service.Base.{if◌then◌else◌, ◌==◌, get_or, length, if_intro}
use rhex_service.Air.Motion.{
  MotionState, motion_state_off, motion_state_calibrating, motion_state_parking,
  motion_state_begin_walking, motion_state_walking, motion_state_stop_walking, FloatOps, Drive,
  CanProto, CanPacket, RcData, Motion, state_is_ready, all_drv_ready,
}
use rhex_service.Air.Motion.Step.{Gait, move_legs, make_step}
use rhex_service.Air.Motion.Cycle.{take_inbox, cycle}
use rhex_service.Air.Motion.Control.{
  change, set_ready, board_of, drive_of, take_msg, park, parking_all, calibrate_all, change_state,
  move_in, walk, enter_state, read_buttons, move, state_number,
}

abbrev pub flags : {F : Type 0} → List (Drive F) → List Bool
flags ds = map (λ d. state_is_ready d.state) ds

-- Drives that were ready still are.
abbrev pub Kept : List Bool → List Bool → Type 0
Kept [] [] = Unit
Kept [] (b ∷ gs) = ⊥
Kept (a ∷ fs) [] = ⊥
Kept (a ∷ fs) (b ∷ gs) = (a ≡ true → b ≡ true) × Kept fs gs

abbrev pub all_set : List Bool → Bool
all_set [] = true
all_set (b ∷ gs) = let rest = all_set gs in if b then rest else false

pub all_drv_ready_lem : {F : Type 0} (ds : List (Drive F)) → all_drv_ready ds ≡ all_set (flags ds)
unfolding all_drv_ready
all_drv_ready_lem [] = refl
all_drv_ready_lem (d ∷ ds) =
    ap (λ r. if state_is_ready d.state then r else false) (all_drv_ready_lem ds)

pub Kept-refl : (fs : List Bool) → Kept fs fs
Kept-refl [] = tt
Kept-refl (a ∷ fs) = (λ e. e, Kept-refl fs)

pub Kept-trans : (fs gs hs : List Bool) → Kept fs gs → Kept gs hs → Kept fs hs
Kept-trans [] [] [] h k = tt
Kept-trans [] [] (c ∷ hs) h k = absurd k
Kept-trans [] (b ∷ gs) hs h k = absurd h
Kept-trans (a ∷ fs) [] hs h k = absurd h
Kept-trans (a ∷ fs) (b ∷ gs) [] h k = absurd k
Kept-trans (a ∷ fs) (b ∷ gs) (c ∷ hs) h k = (λ e. k.0 (h.0 e), Kept-trans fs gs hs h.1 k.1)

pub all_set-Kept : (fs gs : List Bool) → Kept fs gs → all_set fs ≡ true → all_set gs ≡ true
all_set-Kept [] [] h e = refl
all_set-Kept [] (b ∷ gs) h e = absurd h
all_set-Kept (a ∷ fs) [] h e = absurd h
all_set-Kept (true ∷ fs) (b ∷ gs) h e = rw (h.0 refl) (all_set-Kept fs gs h.1 e)
all_set-Kept (false ∷ fs) (b ∷ gs) h e = absurd (cc e)

pub get_or-Kept :
    (fs gs : List Bool) (i : ℕ) → Kept fs gs → get_or fs i false ≡ true → get_or gs i false ≡ true
get_or-Kept [] gs i h e = absurd (cc e)
get_or-Kept (a ∷ fs) [] i h e = absurd h
get_or-Kept (a ∷ fs) (b ∷ gs) zero h e = h.0 e
get_or-Kept (a ∷ fs) (b ∷ gs) (suc i) h e = get_or-Kept fs gs i h.1 e

module _ {F : Type 0} where
  pub ready-flags :
      (ds es : List (Drive F))
      → Kept (flags ds) (flags es)
      → all_drv_ready ds ≡ true
      → all_drv_ready es ≡ true
  ready-flags ds es kept e =
      all_drv_ready_lem es
      ∙ all_set-Kept (flags ds) (flags es) kept (sym (all_drv_ready_lem ds) ∙ e)

  pub same-flags :
      (ds es : List (Drive F)) → flags es ≡ flags ds → all_drv_ready es ≡ all_drv_ready ds
  same-flags ds es e = all_drv_ready_lem es ∙ ap all_set e ∙ sym (all_drv_ready_lem ds)

module _ {F : Type 0} (fl : FloatOps F) (proto : CanProto) where
  pub set_ready-Kept :
      (i : ℕ) (ds : List (Drive F)) → Kept (flags ds) (flags (set_ready fl proto i ds))
  set_ready-Kept i [] = tt
  set_ready-Kept zero (d ∷ ds) = (λ e. refl, Kept-refl (flags ds))
  set_ready-Kept (suc i) (d ∷ ds) = (λ e. e, set_ready-Kept i ds)

  pub set_ready_lem :
      (i : ℕ) (ds : List (Drive F))
      → i < length ds
      → get_or (flags (set_ready fl proto i ds)) i false ≡ true
  set_ready_lem i [] h = absurd (omega arith)
  set_ready_lem zero (d ∷ ds) h = refl
  set_ready_lem (suc i) (d ∷ ds) h = set_ready_lem i ds (omega arith)

  pub length-set_ready :
      (i : ℕ) (ds : List (Drive F)) → length (set_ready fl proto i ds) ≡ length ds
  length-set_ready i [] = refl
  length-set_ready zero (d ∷ ds) = refl
  length-set_ready (suc i) (d ∷ ds) = ap suc (length-set_ready i ds)

  flags-park : (i : ℕ) (ds : List (Drive F)) → flags (change (park fl proto) i ds) ≡ flags ds
  flags-park i [] = refl
  flags-park zero (d ∷ ds) = refl
  flags-park (suc i) (d ∷ ds) = ap (λ r. state_is_ready d.state ∷ r) (flags-park i ds)

  flags-move_legs :
      (g : Gait F) (p : F) (d : ℕ) (ds : List (Drive F))
      → flags (move_legs fl proto g p d ds).0 ≡ flags ds
  unfolding move_legs
  flags-move_legs g p d [] = refl
  flags-move_legs g p d (leg ∷ legs) =
      ap (λ r. state_is_ready leg.state ∷ r) (flags-move_legs g p (d + 1) legs)

  pub flags-make_step :
      (speed steering : F) (m : Motion F)
      → flags (make_step fl proto speed steering m).drv_status ≡ flags m.drv_status
  unfolding make_step
  flags-make_step speed steering m = flags-move_legs _ _ 0 m.drv_status

  pub flags-parking_all :
      (m : Motion F) → flags (parking_all fl proto m).drv_status ≡ flags m.drv_status
  unfolding parking_all
  flags-parking_all m =
      flags-park 5 _
      ∙ flags-park 4 _
      ∙ flags-park 3 _
      ∙ flags-park 2 _
      ∙ flags-park 1 _
      ∙ flags-park 0 m.drv_status

  flags-enter_state :
      (s : MotionState) (m : Motion F)
      → flags (enter_state fl proto s m).drv_status ≡ flags m.drv_status
  unfolding enter_state calibrate_all
  flags-enter_state motion_state_off m = refl
  flags-enter_state motion_state_calibrating m = refl
  flags-enter_state motion_state_parking m = flags-parking_all m
  flags-enter_state motion_state_begin_walking m = refl
  flags-enter_state motion_state_walking m = refl
  flags-enter_state motion_state_stop_walking m = refl

  pub flags-change_state :
      (m : Motion F) → flags (change_state fl proto m).drv_status ≡ flags m.drv_status
  unfolding change_state
  flags-change_state m =
      if_intro {A = Motion F} (λ r. flags r.drv_status ≡ flags m.drv_status)
        (state_number m.tgt_motion_state == state_number m.motion_state) refl
        (if_intro {A = Motion F} (λ r. flags r.drv_status ≡ flags m.drv_status)
          (all_drv_ready m.drv_status) (flags-enter_state m.tgt_motion_state m) refl)

  flags-walk :
      (rc : RcData F) (m : Motion F) → flags (walk fl proto rc m).drv_status ≡ flags m.drv_status
  unfolding walk
  flags-walk rc m =
      if_intro {A = Motion F} (λ r. flags r.drv_status ≡ flags m.drv_status)
        (all_drv_ready m.drv_status) (flags-make_step rc.speed rc.steering m) refl

  pub flags-move_in :
      (s : MotionState) (rc : RcData F) (m : Motion F)
      → flags (move_in fl proto s rc m).drv_status ≡ flags m.drv_status
  unfolding move_in
  flags-move_in motion_state_off rc m = refl
  flags-move_in motion_state_calibrating rc m = refl
  flags-move_in motion_state_parking rc m = refl
  flags-move_in motion_state_begin_walking rc m = flags-walk rc m
  flags-move_in motion_state_walking rc m = flags-walk rc m
  flags-move_in motion_state_stop_walking rc m = flags-walk rc m

  pub drives-read_buttons :
      (rc : RcData F) (m : Motion F) → (read_buttons fl proto rc m).drv_status ≡ m.drv_status
  drives-read_buttons rc m =
      let m1 =
        if get_or rc.btn 0 false then record m { tgt_motion_state = motion_state_walking } else m in
      let first : m1.drv_status ≡ m.drv_status =
        if_intro {A = Motion F} (λ r. r.drv_status ≡ m.drv_status) (get_or rc.btn 0 false) refl
          refl in
      if_intro {A = Motion F} (λ r. r.drv_status ≡ m.drv_status) (get_or rc.btn 1 false) first first

  -- A cycle learns of the drives from the packet alone.
  pub flags-cycle :
      (inbox : Option CanPacket) (rc : RcData F) (m : Motion F)
      → flags (cycle fl proto inbox rc m).drv_status
        ≡ flags (take_inbox fl proto inbox m).drv_status
  unfolding cycle move
  flags-cycle inbox rc m =
      flags-move_in _ rc _
      ∙ flags-change_state _
      ∙ ap flags (drives-read_buttons rc (take_inbox fl proto inbox m))

  set_ready_all :
      (msg : CanPacket) (m : Motion F)
      → Kept (flags m.drv_status) (
          flags
            (set_ready fl proto (board_of fl proto msg * 2 + drive_of fl proto msg) m.drv_status))
  set_ready_all msg m =
      set_ready-Kept (board_of fl proto msg * 2 + drive_of fl proto msg) m.drv_status

  both_ready :
      (msg : CanPacket) (m : Motion F)
      → Kept (flags m.drv_status) (
          flags (
            set_ready fl proto
              (board_of fl proto msg * 2 + 1)
              (set_ready fl proto (board_of fl proto msg * 2) m.drv_status)))
  both_ready msg m =
      let i = board_of fl proto msg * 2 in
      Kept-trans (flags m.drv_status) (flags (set_ready fl proto i m.drv_status)) _
        (set_ready-Kept i m.drv_status) (set_ready-Kept (i + 1) (set_ready fl proto i m.drv_status))

  pub take_msg-Kept :
      (msg : CanPacket) (m : Motion F)
      → Kept (flags m.drv_status) (flags (take_msg fl proto msg m).drv_status)
  unfolding take_msg
  take_msg-Kept msg m =
      let i = board_of fl proto msg * 2 in
      let one = set_ready_all msg m in
      let both = both_ready msg m in
      if_intro {A = Motion F} (λ r. Kept (flags m.drv_status) (flags r.drv_status))
        (not (msg.msg_type == proto.msg_type_response)) (Kept-refl (flags m.drv_status))
        (if_intro {A = Motion F} (λ r. Kept (flags m.drv_status) (flags r.drv_status))
          (msg.cmd_id == proto.msg_id_get_status)
          (if_intro {A = Motion F} (λ r. Kept (flags m.drv_status) (flags r.drv_status))
            (all_drv_ready (set_ready fl proto (i + 1) (set_ready fl proto i m.drv_status)))
            (subst (Kept (flags m.drv_status)) (sym (flags-make_step _ _ _)) both) both)
          (if_intro {A = Motion F} (λ r. Kept (flags m.drv_status) (flags r.drv_status))
            (msg.cmd_id == proto.msg_id_drv_calibration_start) one
            (if_intro {A = Motion F} (λ r. Kept (flags m.drv_status) (flags r.drv_status))
              (msg.cmd_id == proto.msg_id_drv_leg_stand) one (Kept-refl (flags m.drv_status)))))
