-- ===== src/Air/Gps/Faults.antt =====
-- What stops the process from seeing lines: a wait that runs out, and a line that does not fit.
use rhex_service.Base.{
  ℕ, ◌+◌, ◌≤◌, ◌<◌, ◌≡◌, refl, ap, ◌∙◌, arith, List, [], ◌∷◌, ◌++◌, false, none, some,
}
use rhex_service.Base.{if_false, ltb, length, set, All, ltb→lt, inl, inr, Bool-cases}
use rhex_service.Air.Gps.{Minmea, Gps, Input, take_byte, take_bytes, gps_loop}
use rhex_service.Air.Gps.Lines.{IsText, take_byte_text, then_bytes, differs}

module _ {N F : Type 0} (m : Minmea N F) where
  deaf :
      (inputs : List Input) (g : Gps F)
      → g.armed ≡ false
      → (g1 : Gps F) × (gps_loop m inputs g ≡ some g1) × (g1.report ≡ g.report)
  unfolding gps_loop
  deaf [] g h = (g, refl, refl)
  deaf (Input.timeout ∷ rest) g h = deaf rest (record g { armed = false }) refl
  deaf (Input.failed ∷ rest) g h = let (g1, e, r) = deaf rest g h in (g1, if_false _ _ h ∙ e, r)
  deaf (Input.received bytes ∷ rest) g h =
      let (g1, e, r) = deaf rest g h in (g1, if_false _ _ h ∙ e, r)

  -- Once a wait for data has run out, nothing that arrives later is parsed or published, whatever
  -- it is.
  pub gps_loop_after_timeout :
      (inputs : List Input) (g : Gps F)
      → (g1 : Gps F) × (gps_loop m (Input.timeout ∷ inputs) g ≡ some g1) × (g1.report ≡ g.report)
  unfolding gps_loop
  gps_loop_after_timeout inputs g = deaf inputs (record g { armed = false }) refl

  -- A text byte for a line that fills the array.
  take_byte_full :
      (b : ℕ) (g : Gps F) → IsText b → ltb g.line_len 256 ≡ false → take_byte m b g ≡ none
  unfolding take_byte
  take_byte_full b g t full = rw (differs b 13 t.2, differs b 10 t.1, full) refl

  -- A line of more than 256 bytes is written behind the end of the array.
  overrun :
      (txt rest : List ℕ) (g : Gps F)
      → All IsText txt
      → g.line_len ≤ 256
      → 256 < g.line_len + length txt
      → take_bytes m (txt ++ rest) g ≡ none
  unfolding take_bytes
  overrun [] rest g h k l = absurd (omega arith)
  overrun (b ∷ txt) rest g h k l = elim (Bool-cases (ltb g.line_len 256)) [
    | inl room ↦
        ap (then_bytes m (txt ++ rest)) (take_byte_text m b g h.0 (ltb→lt g.line_len 256 room))
        ∙ overrun txt rest (record g { line = set g.line g.line_len b; line_len = g.line_len + 1 })
            h.1 (omega (arith, ltb→lt g.line_len 256 room)) (omega arith)
    | inr full ↦ ap (then_bytes m (txt ++ rest)) (take_byte_full b g h.0 full)
  ]
