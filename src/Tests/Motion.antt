-- ===== src/Tests/Motion.antt =====
-- The motion service with natural numbers for floats: a robot that starts, parks and walks.
use rhex_service.Base.{
  ℕ, ◌≡◌, ◌+◌, ◌-◌, ◌*◌, ◌/◌, ◌%◌, refl, inl, inr, [], ◌∷◌, ◌++◌, List, Bool, true, false, none,
  some, replicate, ltb,
}
use rhex_service.Base.Int.{pos}
use rhex_service.Air.Motion.{
  FloatOps, CanProto, CanPacket, RcData, Drive, Motion, motion_state_off, motion_state_parking,
  motion_state_walking, drv_state_off, drv_state_ready, leg_left, all_drv_ready,
}
use rhex_service.Air.Motion.Control.{
  do_motion, motion_init, move_in, change_state, take_msg, move, parse_inbox, parse_msg,
  is_past_end,
}
use rhex_service.Air.Motion.Cycle.{cycle, do_motion-cycle}
use rhex_service.Air.Motion.Safe.{IsSafe, started, cycled, Reachable-IsSafe}
use rhex_service.Air.Motion.Quiet.{do_motion_quiet}
use rhex_service.Air.Motion.Runs.{Cycle, do_motions}
use rhex_service.Air.Motion.Answers.{started_and_parked}
use rhex_service.Air.Motion.Walking.{IsStep, walks_on}

abbrev numbers : FloatOps ℕ
numbers = record {
  literal = λ n d. n / d;
  add = λ a b. a + b;
  sub = λ a b. a - b;
  mul = λ a b. a * b;
  div = λ a b. a / b;
  neg = λ a. 0;
  fabs = λ a. a;
  gt = λ a b. ltb b a;
  to_u16 = λ a. a % 65536;
  to_i16 = λ a. pos a;
}

abbrev proto : CanProto
proto = record {
  msg_id_get_status = 1;
  msg_id_drv_calibration_start = 2;
  msg_id_drv_leg_stand = 3;
  msg_id_drv_leg_motion = 4;
  msg_type_response = 1;
  motion_type_pos = 2;
  motion_cmd = λ drive type position speed. drive ∷ type ∷ position % 256 ∷ position / 256 ∷ [];
}

abbrev answer : ℕ → CanPacket
answer board = record {
  src_id = board;
  dest_id = 16;
  cmd_id = 1;
  msg_type = 1;
  len = 0;
  data_bytes = [];
}

abbrev commands : Bool → Bool → RcData ℕ
commands walk park = record { speed = 1; steering = 0; btn = walk ∷ park ∷ replicate 30 false }

abbrev drives : List (Drive ℕ)
drives = motion_init numbers proto (
    replicate 6
      (record { state = drv_state_off; side = leg_left; pos = 0; phase = 0; phase_offset = 0 }))

abbrev off : Motion ℕ
off = record {
  motion_state = motion_state_off;
  tgt_motion_state = motion_state_off;
  drv_status = drives;
  global_phase = 0;
  sent = [];
}

abbrev answers : List (Cycle ℕ)
answers =
    (some (answer 2), commands false false)
    ∷ (none, commands true false)
    ∷ (some (answer 1), commands false false)
    ∷ (some (answer 3), commands false false)
    ∷ []

abbrev walking : Motion ℕ
walking = record {
  motion_state = motion_state_walking;
  tgt_motion_state = motion_state_walking;
  drv_status =
      replicate 6
        (record { state = drv_state_ready; side = leg_left; pos = 0; phase = 0; phase_offset = 0 });
  global_phase = 0;
  sent = [];
}

-- What a cycle gives.
abbrev heard : Motion ℕ
heard = cycle numbers proto (some (answer 2)) (commands true false) off

past_end : do_motion numbers proto (some (answer 4)) (commands true false) off ≡ none
unfolding do_motion parse_inbox parse_msg is_past_end
past_end = refl

Reachable-IsSafe_example : IsSafe heard
Reachable-IsSafe_example = Reachable-IsSafe numbers proto heard (
    cycled off heard (some (answer 2)) (commands true false)
      (do_motion-cycle numbers proto (some (answer 2)) (commands true false) off
        (unfold is_past_end in refl))
      (started drives 0 []))

do_motion_quiet_example : heard.sent ≡ off.sent
unfolding cycle move all_drv_ready move_in change_state take_msg
do_motion_quiet_example =
    do_motion_quiet numbers proto (some (answer 2)) (commands true false) off heard
      (do_motion-cycle numbers proto (some (answer 2)) (commands true false) off
        (unfold is_past_end in refl))
      refl

started_and_parked_example :
    (m1 : Motion ℕ) × (m2 : Motion ℕ) × (do_motions numbers proto answers off ≡ some m1)
    × (all_drv_ready m1.drv_status ≡ true)
    × (do_motion numbers proto none (commands false true) m1 ≡ some m2)
    × (m2.motion_state ≡ motion_state_parking)
unfolding is_past_end
started_and_parked_example =
    started_and_parked numbers proto answers (commands false true) off
      (refl, (refl, (refl, (refl, tt)))) refl
      (inr (inr (inl (answer 1, refl, record { response = refl; status = refl; source = refl }))))
      (inl (answer 2, refl, record { response = refl; status = refl; source = refl }))
      (inr (
        inr (inr (inl (answer 3, refl, record { response = refl; status = refl; source = refl })))))
      refl

walks_on_example :
    (m1 : Motion ℕ) × (packets : List CanPacket) × (do_motion numbers proto none
        (commands false false)
        walking
      ≡ some m1)
    × (m1.sent ≡ walking.sent ++ packets)
    × IsStep proto packets
    × (m1.motion_state ≡ motion_state_walking)
unfolding all_drv_ready
walks_on_example = walks_on numbers proto (commands false false) walking refl refl refl refl refl
