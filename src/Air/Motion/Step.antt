-- ===== src/Air/Motion/Step.antt =====
-- make_step: where each leg goes in this cycle, and the commands that send it there.
use rhex_service.Base.{ℕ, ◌+◌, ◌-◌, ◌/◌, ◌%◌, ◌^◌, List, [], ◌∷◌, ◌++◌, ◌||◌}
use rhex_service.Base.{if◌then◌else◌, ◌==◌}
use rhex_service.Air.Motion.{
  FloatOps, Drive, CanProto, CanPacket, Motion, leg_left, leg_right, to_board,
}

-- The numbers of a step that are the same for all legs.
pub record Gait (F : Type 0) : Type 0 where
  pub phase_start : F
  pub phase_end : F
  pub sd_start_l : F
  pub sd_end_l : F
  pub sd_start_r : F
  pub sd_end_r : F

module _ {F : Type 0} (fl : FloatOps F) where
  abbrev pub fdiff : F → F → F
  fdiff v1 v2 =
      let d = fl.fabs (fl.sub v2 v1) in
      if fl.gt d (fl.literal 384 1) then fl.sub (fl.literal 768 1) d else d

  abbrev pub flimit : F → F → F → F
  flimit val max min =
      let result = if fl.gt val max then max else val in if fl.gt min result then min else result

  -- fabs(steering) > 0.0f and fabs(steering / speed) < 2.0f
  abbrev pub slowdown : F → F → F
  slowdown speed steering =
      if fl.gt (fl.fabs steering) (fl.literal 0 1)
      then (if fl.gt (fl.literal 2 1) (fl.fabs (fl.div steering speed))
          then fl.add (fl.literal 1 1) (fl.fabs (fl.div (fl.div steering speed) (fl.literal 2 1)))
          else fl.literal 1 1)
      else fl.literal 1 1

  -- `down_phase_start` is {310, 360}, `down_phase_end` is {140, 100}.
  abbrev pub gait : F → F → Gait F
  gait speed turn_factor =
      let right = fl.gt turn_factor (fl.literal 0 1) in
      let half = fl.literal 1 2 in
      let start_r = fl.div (fl.mul turn_factor half) (fl.literal 2 1) in
      let start_l = fl.div (fl.mul (fl.neg turn_factor) half) (fl.literal 2 1) in
      record {
        phase_start =
            fl.add (fl.literal 310 1) (fl.mul (fl.sub (fl.literal 360 1) (fl.literal 310 1)) speed);
        phase_end =
            fl.add (fl.literal 140 1) (fl.mul (fl.sub (fl.literal 100 1) (fl.literal 140 1)) speed);
        sd_start_l = if right then fl.literal 0 1 else start_l;
        sd_end_l = if right then half else fl.sub half start_l;
        sd_start_r = if right then start_r else fl.literal 0 1;
        sd_end_r = if right then fl.sub half start_r else half;
      }

  abbrev pub turn_phase : F → F → F → F
  turn_phase global_phase speed slow =
      let p = fl.add global_phase (fl.div (fl.div speed slow) (fl.literal 100 1)) in
      let p1 = if fl.gt p (fl.literal 1 1) then fl.sub p (fl.literal 1 1) else p in
      if fl.gt (fl.literal 0 1) p1 then fl.add p1 (fl.literal 1 1) else p1

  -- Between -0.5 and 0.5.
  abbrev pub wrap_phase : F → F
  wrap_phase p =
      let p1 = if fl.gt p (fl.literal 1 2) then fl.sub p (fl.literal 1 1) else p in
      if fl.gt (fl.neg (fl.literal 1 2)) p1 then fl.add p1 (fl.literal 1 1) else p1

  -- The phase of a leg, shifted for the turn.
  abbrev pub shift_phase : F → F → F → F
  shift_phase lp1 sd_start sd_end =
      let width = fl.sub sd_end sd_start in
      let twice = fl.mul (fl.literal 2 1) lp1 in
      fl.add
        (if fl.gt lp1 (fl.literal 0 1)
          then fl.mul twice width
          else fl.mul twice (fl.sub (fl.literal 1 1) width))
        sd_start

  abbrev pub leg_phase : Gait F → F → Drive F → F
  leg_phase g global_phase d =
      let lp1 =
        wrap_phase (fl.add (fl.neg (fl.add global_phase d.phase_offset)) (fl.literal 1 2)) in
      wrap_phase (elim d.side [
        | leg_left ↦ shift_phase lp1 g.sd_start_l g.sd_end_l
        | leg_right ↦ shift_phase lp1 g.sd_start_r g.sd_end_r
      ])

  -- From 0 to 768.
  abbrev pub phase_position : Gait F → F → F
  phase_position g phase =
      let down = fl.sub g.phase_start g.phase_end in
      let twice = fl.mul (fl.literal 2 1) phase in
      let p =
        fl.add
          (if fl.gt phase (fl.literal 0 1)
            then fl.mul twice down
            else fl.mul twice (fl.sub (fl.literal 768 1) down))
          g.phase_end in
      let p1 = if fl.gt p (fl.literal 768 1) then fl.sub p (fl.literal 768 1) else p in
      if fl.gt (fl.literal 0 1) p1 then fl.add p1 (fl.literal 768 1) else p1

  abbrev pub step_speed : F → F → F
  step_speed phase_pos pos =
      let m_speed = fl.mul (fl.fabs (fdiff phase_pos pos)) (fl.literal 105 1) in
      if fl.gt m_speed (fl.literal 1536 1) then fl.literal 1536 1 else m_speed

  -- The two drives at the back are inverted.
  abbrev pub step_position : ℕ → F → ℕ
  step_position d pos =
      if (d == 5) || (d == 4) then (768 + 2 ^ 32 - fl.to_u16 pos) % 2 ^ 32 else fl.to_u16 pos

  module _ (proto : CanProto) where
    -- The legs from the number `d` on: where they are then, and the commands.
    unfoldable pub move_legs : Gait F → F → ℕ → List (Drive F) → List (Drive F) × List CanPacket
    move_legs g global_phase d [] = ([], [])
    move_legs g global_phase d (leg ∷ legs) =
        let phase_pos = phase_position g (leg_phase g global_phase leg) in
        let cmd =
          proto.motion_cmd (d % 2) proto.motion_type_pos (step_position d phase_pos)
            (fl.to_i16 (step_speed phase_pos leg.pos)) in
        let rest = move_legs g global_phase (d + 1) legs in
        (
          record leg { pos = phase_pos } ∷ rest.0,
          to_board (d / 2 + 1) proto.msg_id_drv_leg_motion cmd ∷ rest.1,
        )

    unfoldable pub make_step : F → F → Motion F → Motion F
    make_step speed0 steering0 m =
        let speed = flimit speed0 (fl.literal 1 1) (fl.neg (fl.literal 1 1)) in
        let steering = flimit steering0 (fl.literal 1 1) (fl.neg (fl.literal 1 1)) in
        let phase = turn_phase m.global_phase speed (slowdown speed steering) in
        let moved = move_legs (gait speed steering) phase 0 m.drv_status in
        record m { global_phase = phase; drv_status = moved.0; sent = m.sent ++ moved.1 }
