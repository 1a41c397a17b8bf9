-- ===== src/Air/Motion/Cycle.antt =====
-- A cycle of rhex_air/control/motion.c that does not write past the array of the drives.
use rhex_service.Base.{
  ◌≡◌, inl, inr, refl, Bool, true, not, Option, none, some, some_inj, Bool-cases,
}
use rhex_service.Air.Motion.{FloatOps, CanProto, CanPacket, RcData, Motion}
use rhex_service.Air.Motion.Control.{is_past_end, take_msg, parse_msg, parse_inbox, move, do_motion}

module _ {F : Type 0} (fl : FloatOps F) (proto : CanProto) where
  -- No packet, or one that does not write past the array.
  abbrev pub is_within : Option CanPacket → Bool
  is_within none = true
  is_within (some msg) = not (is_past_end fl proto msg)

  abbrev pub take_inbox : Option CanPacket → Motion F → Motion F
  take_inbox none m = m
  take_inbox (some msg) m = take_msg fl proto msg m

  -- What a cycle comes to when it is defined.
  unfoldable pub cycle : Option CanPacket → RcData F → Motion F → Motion F
  cycle inbox rc m = move fl proto rc (take_inbox inbox m)

  pub do_motion-cycle :
      (inbox : Option CanPacket) (rc : RcData F) (m : Motion F)
      → is_within inbox ≡ true
      → do_motion fl proto inbox rc m ≡ some (cycle inbox rc m)
  unfolding do_motion parse_inbox parse_msg cycle
  do_motion-cycle none rc m h = refl
  do_motion-cycle (some msg) rc m h = elim (Bool-cases (is_past_end fl proto msg)) [
    | inl past ↦ absurd (cc (h, past))
    | inr within ↦ rw (do_motion, within) refl
  ]

  pub do_motion_defined :
      (inbox : Option CanPacket) (rc : RcData F) (m m' : Motion F)
      → do_motion fl proto inbox rc m ≡ some m'
      → cycle inbox rc m ≡ m'
  unfolding do_motion parse_inbox parse_msg cycle
  do_motion_defined none rc m m' e = some_inj e
  do_motion_defined (some msg) rc m m' e = elim (Bool-cases (is_past_end fl proto msg)) [
    | inl past ↦ absurd (cc (rw (do_motion, past) at e))
    | inr within ↦ some_inj (rw (do_motion, within) at e)
  ]
