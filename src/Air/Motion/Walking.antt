-- ===== src/Air/Motion/Walking.antt =====
-- A robot that walks.
use rhex_service.Base.{some}
use rhex_service.Base.{
  ℕ, zero, suc, ◌+◌, ◌/◌, ◌≡◌, refl, sym, ap, ◌∙◌, List, [], ◌∷◌, ◌++◌, true, false, none, map, inl,
  inr,
}
use rhex_service.Base.{get_or, length, replicate, Bool-cases}
use rhex_service.Air.Motion.{
  motion_state_walking, FloatOps, Drive, CanProto, CanPacket, RcData, Motion, all_drv_ready,
}
use rhex_service.Air.Motion.Control.{change_state, walk, move_in, read_buttons, move, do_motion}
use rhex_service.Air.Motion.Cycle.{cycle, do_motion-cycle}
use rhex_service.Air.Motion.Step.{Gait, move_legs, make_step, flimit, gait, turn_phase, slowdown}

-- The boards that drives are on, from the drive `d` on.
boards_from : ℕ → ℕ → List ℕ
boards_from d zero = []
boards_from d (suc n) = (d / 2 + 1) ∷ boards_from (d + 1) n

-- The commands of one step, in the order of the drives: two for each board.
pub record IsStep (proto : CanProto) (commands : List CanPacket) : Type 0 where
  pub boards : map (λ c. c.dest_id) commands ≡ 1 ∷ 1 ∷ 2 ∷ 2 ∷ 3 ∷ 3 ∷ []
  pub ids : map (λ c. c.cmd_id) commands ≡ replicate 6 proto.msg_id_drv_leg_motion

module _ {F : Type 0} (fl : FloatOps F) (proto : CanProto) where
  moved_boards :
      (g : Gait F) (p : F) (d : ℕ) (legs : List (Drive F))
      → map (λ c. c.dest_id) (move_legs fl proto g p d legs).1 ≡ boards_from d (length legs)
  unfolding move_legs boards_from
  moved_boards g p d [] = refl
  moved_boards g p d (leg ∷ legs) = ap (λ r. (d / 2 + 1) ∷ r) (moved_boards g p (d + 1) legs)

  moved_ids :
      (g : Gait F) (p : F) (d : ℕ) (legs : List (Drive F))
      → map (λ c. c.cmd_id) (move_legs fl proto g p d legs).1
        ≡ replicate (length legs) proto.msg_id_drv_leg_motion
  unfolding move_legs
  moved_ids g p d [] = refl
  moved_ids g p d (leg ∷ legs) =
      ap (λ r. proto.msg_id_drv_leg_motion ∷ r) (moved_ids g p (d + 1) legs)

  make_step_commands :
      (speed steering : F) (m : Motion F)
      → length m.drv_status ≡ 6
      → (commands : List CanPacket) × ((make_step fl proto speed steering m).sent
          ≡ m.sent ++ commands)
        × IsStep proto commands
  unfolding make_step boards_from
  make_step_commands speed steering m six =
      let s = flimit fl speed (fl.literal 1 1) (fl.neg (fl.literal 1 1)) in
      let t = flimit fl steering (fl.literal 1 1) (fl.neg (fl.literal 1 1)) in
      let g = gait fl s t in
      let p = turn_phase fl m.global_phase s (slowdown fl s t) in
      (
        (move_legs fl proto g p 0 m.drv_status).1,
        refl,
        record {
          boards = moved_boards g p 0 m.drv_status ∙ ap (boards_from 0) six;
          ids =
              moved_ids g p 0 m.drv_status ∙ ap (λ n. replicate n proto.msg_id_drv_leg_motion) six;
        },
      )

  unchanged :
      (m : Motion F)
      → m.motion_state ≡ motion_state_walking
      → m.tgt_motion_state ≡ motion_state_walking
      → change_state fl proto m ≡ m
  unfolding change_state
  unchanged m e f = rw (e, f) refl

  same_buttons :
      (rc : RcData F) (m : Motion F)
      → m.tgt_motion_state ≡ motion_state_walking
      → get_or rc.btn 1 false ≡ false
      → read_buttons fl proto rc m ≡ m
  same_buttons rc m target released = elim (Bool-cases (get_or rc.btn 0 false)) [
    | inl on ↦ rw (on, released) (ap (λ t. record m { tgt_motion_state = t }) (sym target))
    | inr off ↦ rw (off, released) refl
  ]

  walking_moves :
      (rc : RcData F) (m : Motion F)
      → all_drv_ready m.drv_status ≡ true
      → m.motion_state ≡ motion_state_walking
      → move_in fl proto m.motion_state rc m ≡ make_step fl proto rc.speed rc.steering m
  unfolding move_in walk
  walking_moves rc m ready walking = ap (λ s. move_in fl proto s rc m) walking ∙ rw ready refl

  walking_cycle :
      (rc : RcData F) (m : Motion F)
      → all_drv_ready m.drv_status ≡ true
      → m.motion_state ≡ motion_state_walking
      → m.tgt_motion_state ≡ motion_state_walking
      → get_or rc.btn 1 false ≡ false
      → cycle fl proto none rc m ≡ make_step fl proto rc.speed rc.steering m
  unfolding cycle move
  walking_cycle rc m ready walking target released =
      ap (λ r. move_in fl proto (change_state fl proto r).motion_state rc (change_state fl proto r))
        (same_buttons rc m target released)
      ∙ ap (λ r. move_in fl proto r.motion_state rc r) (unchanged m walking target)
      ∙ walking_moves rc m ready walking

  state-make_step :
      (speed steering : F) (m : Motion F)
      → (make_step fl proto speed steering m).motion_state ≡ m.motion_state
  unfolding make_step
  state-make_step speed steering m = refl

  -- While the robot walks and its target is to walk, with its six drives ready, no packet and
  -- button 1 not pressed, a cycle is defined and sends six motion commands, two to each of the
  -- boards 1, 2 and 3 in this order, and the robot still walks.
  pub walks_on :
      (rc : RcData F) (m : Motion F)
      → length m.drv_status ≡ 6
      → all_drv_ready m.drv_status ≡ true
      → m.motion_state ≡ motion_state_walking
      → m.tgt_motion_state ≡ motion_state_walking
      → get_or rc.btn 1 false ≡ false
      → (m' : Motion F) × (commands : List CanPacket) × (do_motion fl proto none rc m ≡ some m')
        × (m'.sent ≡ m.sent ++ commands)
        × IsStep proto commands
        × (m'.motion_state ≡ motion_state_walking)
  walks_on rc m six ready walking target released =
      let walked = walking_cycle rc m ready walking target released in
      let (commands, sent, step) = make_step_commands rc.speed rc.steering m six in
      (
        cycle fl proto none rc m,
        commands,
        do_motion-cycle fl proto none rc m refl,
        ap (λ r. r.sent) walked ∙ sent,
        step,
        ap (λ r. r.motion_state) walked ∙ state-make_step rc.speed rc.steering m ∙ walking,
      )
