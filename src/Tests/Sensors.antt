-- ===== src/Tests/Sensors.antt =====
-- Floats are natural numbers here; 12 V after 6 V.
use rhex_service.Base.{ℕ, ◌+◌, ◌*◌, ◌/◌, ◌≡◌, refl, [], ◌∷◌, ◌++◌, some, none, arith, replicate}
use rhex_service.Base.Int.{pos, negsuc}
use rhex_service.Air.Sensors.{
  bswap_16, ina226_ping, sum_from, FloatOps, Filter, Sensors, Readings, axis, ina226_open,
  sensors_start, sensors_cycle, sensors_cycles, ina226_get_voltage,
}
use rhex_service.Air.Sensors.Voltage.{sensors_cycle_voltage, vbats}

abbrev floats : FloatOps ℕ
floats = record {
  of_int = λ z. elim z [ pos n ↦ n | negsuc n ↦ 0 ];
  pi = 3;
  add = λ a b. a + b;
  mul = λ a b. a * b;
  div = λ a b. a / b;
  sqrt = λ a. a;
  atan = λ a. a;
}

abbrev reading : ℕ → Readings
reading n = record { busvoltage = some n; current = some 0; x = some 0; y = some 0; z = some 0 }

-- 4800 and 9600 times 1.25 mV, with the bytes swapped.
abbrev low : Readings
low = reading 0xC012

abbrev high : Readings
high = reading 0x8025

abbrev empty_filter : ℕ → Filter ℕ
empty_filter n = record { values = replicate n 0; index = 0 }

abbrev started : Sensors ℕ
started = record {
  f_x = empty_filter 8;
  f_y = empty_filter 8;
  f_z = empty_filter 8;
  f_vbat = empty_filter 64;
  f_curr = empty_filter 8;
  pwr = 0;
  published = [];
}

second_attempt : sensors_start floats (some 3) (some 4, none) (some 4, some 0x6022) ≡ some started
unfolding sensors_start ina226_open ina226_ping bswap_16
second_attempt = refl

no_answer : sensors_start floats (some 3) (some 4, none) (some 4, some 0x2260) ≡ none
unfolding sensors_start ina226_open ina226_ping bswap_16
no_answer = refl

axis_low : axis (some 65534) ≡ negsuc 1
unfolding axis
axis_low = refl

axis_failed : axis none ≡ negsuc 0
unfolding axis
axis_failed = refl

volts_high : ina226_get_voltage (some 0x8025) ≡ 12000
unfolding ina226_get_voltage bswap_16
volts_high = refl

sensors_cycle_voltage_example :
    vbats floats (
      sensors_cycle floats high (
        sensors_cycles floats
          (replicate 64 low ++ (replicate 64 high ++ (low ∷ low ∷ [])))
          started))
    ≡ vbats floats (
        sensors_cycles floats (replicate 64 low ++ (replicate 64 high ++ (low ∷ low ∷ []))) started)
      ++ (11 ∷ [])
unfolding ina226_get_voltage bswap_16 sum_from
sensors_cycle_voltage_example =
    sensors_cycle_voltage floats 1 (replicate 64 low) (replicate 64 high) (low ∷ low ∷ []) high
      started refl refl refl refl (omega arith) (omega arith)
