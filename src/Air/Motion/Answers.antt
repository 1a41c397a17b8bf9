-- ===== src/Air/Motion/Answers.antt =====
-- The start of the robot: the boards answer, and then it parks.
use rhex_service.Base.{All}
use rhex_service.Base.{
  ℕ, zero, suc, ◌+◌, ◌-◌, ◌*◌, ◌<◌, ◌≤◌, ◌≡◌, ◌⊎◌, inl, inr, refl, sym, ap, subst, ◌∙◌, arith, List,
  [], ◌∷◌, Bool, true, false, none, some,
}
use rhex_service.Base.{◌==◌, get_or, length, length-map, if_intro, Bool-cases, ==_iff, dec_lt}
use rhex_service.Air.Motion.{
  MotionState, motion_state_off, motion_state_calibrating, motion_state_parking,
  motion_state_begin_walking, motion_state_walking, motion_state_stop_walking, FloatOps, Drive,
  CanProto, CanPacket, RcData, Motion, all_drv_ready,
}
use rhex_service.Air.Motion.Cycle.{is_within, cycle, do_motion-cycle}
use rhex_service.Air.Motion.Control.{
  set_ready, board_of, take_msg, enter_state, change_state, move_in, read_buttons, move, do_motion,
  state_number,
}
use rhex_service.Air.Motion.Readiness.{
  flags, Kept, all_set, all_drv_ready_lem, get_or-Kept, set_ready-Kept, set_ready_lem,
  length-set_ready, flags-make_step, flags-cycle, drives-read_buttons,
}
use rhex_service.Air.Motion.Runs.{Cycle, do_motions, run, do_motions-run, cycle-Kept, run-Kept}

length-Kept : (fs gs : List Bool) → Kept fs gs → length fs ≡ length gs
length-Kept [] [] h = refl
length-Kept [] (g ∷ gs) h = absurd h
length-Kept (f ∷ fs) [] h = absurd h
length-Kept (f ∷ fs) (g ∷ gs) h = ap suc (length-Kept fs gs h.1)

all_six :
    (fs : List Bool)
    → length fs ≡ 6
    → ((i : ℕ) → i < 6 → get_or fs i false ≡ true)
    → all_set fs ≡ true
all_six (a ∷ b ∷ c ∷ d ∷ e ∷ f ∷ []) six h =
    rw
      (
        h 0 (omega arith),
        h 1 (omega arith),
        h 2 (omega arith),
        h 3 (omega arith),
        h 4 (omega arith),
        h 5 (omega arith),
      )
      refl
all_six [] six h = absurd (omega arith)
all_six (a ∷ []) six h = absurd (omega arith)
all_six (a ∷ b ∷ []) six h = absurd (omega arith)
all_six (a ∷ b ∷ c ∷ []) six h = absurd (omega arith)
all_six (a ∷ b ∷ c ∷ d ∷ []) six h = absurd (omega arith)
all_six (a ∷ b ∷ c ∷ d ∷ e ∷ []) six h = absurd (omega arith)
all_six (a ∷ b ∷ c ∷ d ∷ e ∷ f ∷ g ∷ fs) six h = absurd (omega arith)

-- The answer of a board to start_msg.
pub record IsAnswer (proto : CanProto) (board : ℕ) (msg : CanPacket) : Type 0 where
  pub response : msg.msg_type ≡ proto.msg_type_response
  pub status : msg.cmd_id ≡ proto.msg_id_get_status
  pub source : msg.src_id ≡ board

abbrev pub Answered : {F : Type 0} → CanProto → ℕ → List (Cycle F) → Type 0
Answered proto board [] = ⊥
Answered proto board (c ∷ cs) =
    ((msg : CanPacket) × (c.0 ≡ some msg) × IsAnswer proto board msg) ⊎ Answered proto board cs

module _ {F : Type 0} (fl : FloatOps F) (proto : CanProto) where
  parse_status :
      (board : ℕ) (msg : CanPacket) (m : Motion F)
      → IsAnswer proto board msg
      → flags (take_msg fl proto msg m).drv_status
        ≡ flags (
            set_ready fl proto
              (board_of fl proto msg * 2 + 1)
              (set_ready fl proto (board_of fl proto msg * 2) m.drv_status))
  unfolding take_msg
  parse_status board msg m ans =
      let i = board_of fl proto msg * 2 in
      let both = set_ready fl proto (i + 1) (set_ready fl proto i m.drv_status) in
      let response : (msg.msg_type == proto.msg_type_response) ≡ true =
        (==_iff msg.msg_type proto.msg_type_response).1 ans.response in
      let status : (msg.cmd_id == proto.msg_id_get_status) ≡ true =
        (==_iff msg.cmd_id proto.msg_id_get_status).1 ans.status in
      rw (response, status)
        (if_intro {A = Motion F} (λ r. flags r.drv_status ≡ flags both) (all_drv_ready both)
          (flags-make_step fl proto _ _ _) refl)

  -- An answer makes the two drives of its board ready.
  answer_ready :
      (board k : ℕ) (msg : CanPacket) (rc : RcData F) (m : Motion F)
      → 1 ≤ board
      → board ≤ 3
      → k < 2
      → length m.drv_status ≡ 6
      → IsAnswer proto board msg
      → get_or (flags (cycle fl proto (some msg) rc m).drv_status) ((board - 1) * 2 + k) false
        ≡ true
  answer_ready board k msg rc m low high few six ans =
      subst (λ fs. get_or fs ((board - 1) * 2 + k) false ≡ true)
        (sym (flags-cycle fl proto (some msg) rc m ∙ parse_status board msg m ans))
        (elim (dec_lt k 1) [
          | yes lower ↦
              subst (λ j. get_or (flags both) j false ≡ true) {x = i} {y = (board - 1) * 2 + k}
                (omega (arith, ans.source))
                (get_or-Kept (flags one) (flags both) i (set_ready-Kept fl proto (i + 1) one)
                  (set_ready_lem fl proto i m.drv_status (omega (arith, ans.source))))
          | no upper ↦
              subst (λ j. get_or (flags both) j false ≡ true) {x = i + 1} {y = (board - 1) * 2 + k}
                (omega (arith, ans.source))
                (set_ready_lem fl proto (i + 1) one
                  (omega (arith, ans.source, length-set_ready fl proto i m.drv_status)))
        ])
    where
      i : ℕ
      i = board_of fl proto msg * 2

      one : List (Drive F)
      one = set_ready fl proto i m.drv_status

      both : List (Drive F)
      both = set_ready fl proto (i + 1) one

  run_ready :
      (board k : ℕ) (cs : List (Cycle F)) (m : Motion F)
      → 1 ≤ board
      → board ≤ 3
      → k < 2
      → length m.drv_status ≡ 6
      → Answered proto board cs
      → get_or (flags (run fl proto cs m).drv_status) ((board - 1) * 2 + k) false ≡ true
  unfolding run
  run_ready board k [] m low high few six h = absurd h
  run_ready board k (c ∷ cs) m low high few six (inl (msg, e, ans)) =
      get_or-Kept (flags (cycle fl proto c.0 c.1 m).drv_status) _ ((board - 1) * 2 + k)
        (run-Kept fl proto cs (cycle fl proto c.0 c.1 m))
        (subst
          (λ i.
            get_or (flags (cycle fl proto i c.1 m).drv_status) ((board - 1) * 2 + k) false ≡ true)
          (sym e) (answer_ready board k msg c.1 m low high few six ans))
  run_ready board k (c ∷ cs) m low high few six (inr h) =
      run_ready board k cs (cycle fl proto c.0 c.1 m) low high few
        (sym (length-map _ (cycle fl proto c.0 c.1 m).drv_status)
          ∙ sym (length-Kept (flags m.drv_status) _ (cycle-Kept fl proto c m))
          ∙ length-map _ m.drv_status
          ∙ six)
        h

  enter_parking :
      (m : Motion F)
      → all_drv_ready m.drv_status ≡ true
      → m.tgt_motion_state ≡ motion_state_parking
      → (change_state fl proto m).motion_state ≡ motion_state_parking
  unfolding change_state enter_state
  enter_parking m ready target = elim (Bool-cases (2 == state_number m.motion_state)) [
    | inl same ↦ rw (target, same) (two_parking m.motion_state same)
    | inr other ↦ rw (target, other, ready) refl
  ]
    where
      two_parking : (s : MotionState) → (2 == state_number s) ≡ true → s ≡ motion_state_parking
      two_parking motion_state_off e = absurd (cc e)
      two_parking motion_state_calibrating e = absurd (cc e)
      two_parking motion_state_parking e = refl
      two_parking motion_state_begin_walking e = absurd (cc e)
      two_parking motion_state_walking e = absurd (cc e)
      two_parking motion_state_stop_walking e = absurd (cc e)

  stays_parked :
      (rc : RcData F) (m : Motion F)
      → m.motion_state ≡ motion_state_parking
      → (move_in fl proto m.motion_state rc m).motion_state ≡ motion_state_parking
  unfolding move_in
  stays_parked rc m e = rw e refl

  -- With six drives, once the three boards have answered start_msg, in any order and between any
  -- other packets and commands of which none writes past the array of drives, the cycles are
  -- defined and all six drives are ready, and the next cycle with button 1 pressed and no packet is
  -- defined and ends in the parking state.
  pub started_and_parked :
      (cs : List (Cycle F)) (rc : RcData F) (m : Motion F)
      → All (λ c. is_within fl proto c.0 ≡ true) cs
      → length m.drv_status ≡ 6
      → Answered proto 1 cs
      → Answered proto 2 cs
      → Answered proto 3 cs
      → get_or rc.btn 1 false ≡ true
      → (m1 : Motion F) × (m2 : Motion F) × (do_motions fl proto cs m ≡ some m1)
        × (all_drv_ready m1.drv_status ≡ true)
        × (do_motion fl proto none rc m1 ≡ some m2)
        × (m2.motion_state ≡ motion_state_parking)
  unfolding cycle move
  started_and_parked cs rc m within six one two three pressed = (
    m1,
    cycle fl proto none rc m1,
    do_motions-run fl proto cs m within,
    ready,
    do_motion-cycle fl proto none rc m1 refl,
    stays_parked rc (change_state fl proto m2) (
        enter_parking m2 (ap all_drv_ready (drives-read_buttons fl proto rc m1) ∙ ready)
          (rw pressed refl)),
  )
    where
      m1 : Motion F
      m1 = run fl proto cs m

      m2 : Motion F
      m2 = read_buttons fl proto rc m1

      each : (i : ℕ) → i < 6 → get_or (flags m1.drv_status) i false ≡ true
      each zero h = run_ready 1 0 cs m (omega arith) (omega arith) (omega arith) six one
      each (suc zero) h = run_ready 1 1 cs m (omega arith) (omega arith) (omega arith) six one
      each (suc (suc zero)) h = run_ready 2 0 cs m (omega arith) (omega arith) (omega arith) six two
      each (suc (suc (suc zero))) h =
          run_ready 2 1 cs m (omega arith) (omega arith) (omega arith) six two
      each (suc (suc (suc (suc zero)))) h =
          run_ready 3 0 cs m (omega arith) (omega arith) (omega arith) six three
      each (suc (suc (suc (suc (suc zero))))) h =
          run_ready 3 1 cs m (omega arith) (omega arith) (omega arith) six three
      each (suc (suc (suc (suc (suc (suc i)))))) h = absurd (omega arith)

      ready : all_drv_ready m1.drv_status ≡ true
      ready =
          all_drv_ready_lem m1.drv_status
          ∙ all_six (flags m1.drv_status)
              (sym (length-Kept (flags m.drv_status) (flags m1.drv_status) (run-Kept fl proto cs m))
                ∙ length-map _ m.drv_status
                ∙ six)
              each
