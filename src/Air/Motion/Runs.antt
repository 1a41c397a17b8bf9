-- ===== src/Air/Motion/Runs.antt =====
-- Cycles of rhex_air/control/motion.c, one after the other.
use rhex_service.Base.{All}
use rhex_service.Base.{◌≡◌, refl, sym, subst, List, [], ◌∷◌, true, Option, none, some}
use rhex_service.Air.Motion.{FloatOps, CanProto, CanPacket, RcData, Motion}
use rhex_service.Air.Motion.Cycle.{is_within, cycle, do_motion-cycle}
use rhex_service.Air.Motion.Control.{do_motion}
use rhex_service.Air.Motion.Readiness.{
  flags, Kept, Kept-refl, Kept-trans, flags-cycle, take_msg-Kept,
}

-- What the cycles get: a packet, if there is one, and the commands.
abbrev pub Cycle : Type 0 → Type 0
Cycle F = Option CanPacket × RcData F

module _ {F : Type 0} (fl : FloatOps F) (proto : CanProto) where
  -- Cycles, one after the other.
  unfoldable pub do_motions : List (Cycle F) → Motion F → Option (Motion F)
  do_motions [] m = some m
  do_motions (c ∷ cs) m = elim (do_motion fl proto c.0 c.1 m) [
    | none ↦ none
    | some m1 ↦ do_motions cs m1
  ]

  unfoldable pub run : List (Cycle F) → Motion F → Motion F
  run [] m = m
  run (c ∷ cs) m = run cs (cycle fl proto c.0 c.1 m)

  pub do_motions-run :
      (cs : List (Cycle F)) (m : Motion F)
      → All (λ c. is_within fl proto c.0 ≡ true) cs
      → do_motions cs m ≡ some (run cs m)
  unfolding do_motions run
  do_motions-run [] m v = refl
  do_motions-run (c ∷ cs) m v =
      rw (do_motions, do_motion-cycle fl proto c.0 c.1 m v.0)
        (do_motions-run cs (cycle fl proto c.0 c.1 m) v.1)

  pub cycle-Kept :
      (c : Cycle F) (m : Motion F)
      → Kept (flags m.drv_status) (flags (cycle fl proto c.0 c.1 m).drv_status)
  cycle-Kept (none, rc) m =
      subst (Kept (flags m.drv_status)) (sym (flags-cycle fl proto none rc m))
        (Kept-refl (flags m.drv_status))
  cycle-Kept (some msg, rc) m =
      subst (Kept (flags m.drv_status)) (sym (flags-cycle fl proto (some msg) rc m))
        (take_msg-Kept fl proto msg m)

  pub run-Kept :
      (cs : List (Cycle F)) (m : Motion F) → Kept (flags m.drv_status) (flags (run cs m).drv_status)
  unfolding run
  run-Kept [] m = Kept-refl (flags m.drv_status)
  run-Kept (c ∷ cs) m =
      Kept-trans (flags m.drv_status) (flags (cycle fl proto c.0 c.1 m).drv_status) _
        (cycle-Kept c m) (run-Kept cs (cycle fl proto c.0 c.1 m))
