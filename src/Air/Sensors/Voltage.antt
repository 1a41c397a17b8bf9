-- ===== src/Air/Sensors/Voltage.antt =====
-- What a cycle of rhex_air/sensors/sensors.c publishes of the battery.
use rhex_service.Base.{
  ℕ, ◌+◌, ◌*◌, ◌^◌, ◌≤◌, ◌<◌, ◌≡◌, refl, ap, ◌∙◌, arith, List, [], ◌∷◌, ◌++◌, map,
}
use rhex_service.Base.{length, drop, length-map}
use mathlib.Core.List.{map-append}
use rhex_service.Base.Int.{pos}
use rhex_service.Air.Sensors.{
  FloatOps, Sensors, Readings, filter_with, filter64_value, sum_from, thousandth,
  ina226_get_voltage, sensors_cycle, sensors_cycles,
}
use rhex_service.Air.Sensors.Mean.{filter_run, filter_with_mean}

module _ {F : Type 0} (o : FloatOps F) where
  abbrev pub volts : Readings → F
  volts r = o.of_int (pos (ina226_get_voltage r.busvoltage))

  abbrev pub vbats : Sensors F → List F
  vbats s = map (λ t. t.vbat) s.published

  voltage_filter :
      (rs : List Readings) (s : Sensors F)
      → (sensors_cycles o rs s).f_vbat ≡ filter_run o 64 (map volts rs) s.f_vbat
  unfolding sensors_cycles sensors_cycle filter64_value filter_run
  voltage_filter [] s = refl
  voltage_filter (r ∷ rs) s = voltage_filter rs (sensors_cycle o r s)

  vbat_cycle :
      (r : Readings) (s : Sensors F)
      → vbats (sensors_cycle o r s)
        ≡ vbats s ++ (thousandth o (filter64_value o (volts r) s.f_vbat).0 ∷ [])
  unfolding sensors_cycle
  vbat_cycle r s = map-append (λ t. t.vbat) s.published _

  -- Whatever the buses and the arithmetic on floats give: when the filter of the voltage is as
  -- after the start, with 64 entries and its index zero, and cycles have run whose number is a
  -- multiple of 64, then 64 cycles and then fewer than 64, and the first of these numbers plus 128
  -- is below 2^64, the next cycle publishes one voltage after those published before: a thousandth
  -- of the sum, from left to right, of 64 voltages divided by 64. They are those of the cycles
  -- after the 64, that of this cycle, and those of the rest of the 64, which makes them the 64 that
  -- were measured last.
  pub sensors_cycle_voltage :
      (q : ℕ) (pre block recent : List Readings) (r : Readings) (s : Sensors F)
      → length s.f_vbat.values ≡ 64
      → s.f_vbat.index ≡ 0
      → length pre ≡ q * 64
      → length block ≡ 64
      → length recent + 1 ≤ 64
      → length pre + 64 + 64 < 2 ^ 64
      → vbats (sensors_cycle o r (sensors_cycles o (pre ++ (block ++ recent)) s))
        ≡ vbats (sensors_cycles o (pre ++ (block ++ recent)) s)
          ++ (thousandth o (
                o.div
                  (sum_from o (o.of_int (pos 0)) (
                    (map volts recent ++ (volts r ∷ []))
                    ++ drop (length recent + 1) (map volts block)))
                  (o.of_int (pos 64)))
              ∷ [])
  unfolding filter64_value
  sensors_cycle_voltage q pre block recent r s hf hi hp hb hr ht =
      let split =
        map-append volts pre (block ++ recent)
        ∙ ap (λ vs. map volts pre ++ vs) (map-append volts block recent) in
      let filter =
        voltage_filter (pre ++ (block ++ recent)) s
        ∙ ap (λ vs. filter_run o 64 vs s.f_vbat) split in
      let same = length-map volts recent in
      let mean =
        filter_with_mean o 64 q (map volts pre) (map volts block) (map volts recent) (volts r)
          s.f_vbat hf hi (length-map volts pre ∙ hp) (length-map volts block ∙ hb)
          (omega (arith, same, hr)) (omega (arith, length-map volts pre, ht)) in
      vbat_cycle r (sensors_cycles o (pre ++ (block ++ recent)) s)
      ∙ ap (λ v. vbats (sensors_cycles o (pre ++ (block ++ recent)) s) ++ (thousandth o v ∷ []))
          (ap (λ g. (filter_with o 64 (volts r) g).0) filter
            ∙ mean
            ∙ ap
                (λ n.
                  o.div
                    (sum_from o (o.of_int (pos 0))
                      ((map volts recent ++ (volts r ∷ [])) ++ drop (n + 1) (map volts block)))
                    (o.of_int (pos 64)))
                same)
