-- ===== src/Air/Sensors.antt =====
-- rhex_air/sensors/sensors.c and rhex_air/sensors/ina226.c: the filters of the measured values, and a
-- cycle of sensors_main. The operations on floats and what is read on the bus are parameters.
pub mod Mean
pub mod Voltage
use rhex_service.Base.{
  ℕ, zero, suc, ◌+◌, ◌-◌, ◌*◌, ◌/◌, ◌%◌, ◌^◌, List, [], ◌∷◌, ◌++◌, Bool, Option, none, some,
}
use rhex_service.Base.{if◌then◌else◌, ltb, ◌==◌, set, replicate}
use rhex_service.Base.Int.{ℤ, pos, negsuc}

-- Constants: 0.0, 180.0, the circle constant, 1000.0, 3600.0 and 20.0 are `of_int` of a number, but
-- for `pi`.
pub record FloatOps (F : Type 0) : Type 0 where
  pub of_int : ℤ → F
  pub pi : F
  pub add : F → F → F
  pub mul : F → F → F
  pub div : F → F → F
  pub sqrt : F → F
  pub atan : F → F

-- filter_t and filter64_t; the array has 8 entries in the one and 64 in the other.
pub record Filter (F : Type 0) : Type 0 where
  pub values : List F
  pub index : ℕ

-- sensors_status_t
pub record SensorsStatus (F : Type 0) : Type 0 where
  pub angle_x : F
  pub angle_y : F
  pub angle_z : F
  pub vbat : F
  pub curr : F
  pub pwr : F

-- The variables of sensors_main, and what was put into the segment "shm_sensors", in order.
pub record Sensors (F : Type 0) : Type 0 where
  pub f_x : Filter F
  pub f_y : Filter F
  pub f_z : Filter F
  pub f_vbat : Filter F
  pub f_curr : Filter F
  pub pwr : F
  pub published : List (SensorsStatus F)

-- What i2c_read_reg_16() gives for each register in a cycle; `none` is its -1.
pub record Readings : Type 0 where
  pub busvoltage : Option ℕ
  pub current : Option ℕ
  pub x : Option ℕ
  pub y : Option ℕ
  pub z : Option ℕ

-- An int as a 16-bit word.
abbrev pub word : Option ℕ → ℕ
word none = 65535
word (some n) = n % 65536

unfoldable pub bswap_16 : ℕ → ℕ
bswap_16 n = n % 256 * 256 + n / 256

unfoldable pub ina226_ping : Option ℕ → Bool
unfolding bswap_16
ina226_ping id = bswap_16 (word id) == 0x2260

-- `none` is -1. The descriptor is closed when the device does not answer.
unfoldable pub ina226_open : Option ℕ → Option ℕ → Option ℕ
unfolding ina226_ping
ina226_open none id = none
ina226_open (some fd) id = if ina226_ping id then some fd else none

unfoldable pub ina226_get_voltage : Option ℕ → ℕ
unfolding bswap_16
ina226_get_voltage reg = let v = bswap_16 (word reg) in v + v / 4

unfoldable pub ina226_get_shunt_voltage : Option ℕ → ℕ
unfolding bswap_16
ina226_get_shunt_voltage reg = bswap_16 (word reg)

unfoldable pub ina226_get_current : Option ℕ → ℕ
unfolding bswap_16
ina226_get_current reg = bswap_16 (word reg) / 8

unfoldable pub ina226_get_power : Option ℕ → ℕ
unfolding bswap_16
ina226_get_power reg = let p = bswap_16 (word reg) in p * 3 + p / 8

-- `(int16_t)` of a word; `~`; and `-` on ints.
abbrev pub to_int16 : ℕ → ℤ
to_int16 n = if ltb n 32768 then pos n else negsuc (65535 - n)

abbrev pub complement : ℤ → ℤ
complement (pos n) = negsuc n
complement (negsuc n) = pos n

abbrev pub add_one : ℤ → ℤ
add_one (pos n) = pos (suc n)
add_one (negsuc zero) = pos 0
add_one (negsuc (suc n)) = negsuc n

abbrev pub negative : ℤ → ℤ
negative (pos zero) = pos 0
negative (pos (suc n)) = negsuc n
negative (negsuc n) = pos (suc n)

-- -(~(int16_t)X + 1)
unfoldable pub axis : Option ℕ → ℤ
axis reading = negative (add_one (complement (to_int16 (word reading))))

module _ {F : Type 0} (o : FloatOps F) where
  -- The loop of the sum.
  unfoldable pub sum_from : F → List F → F
  sum_from sum [] = sum
  sum_from sum (v ∷ vs) = sum_from (o.add sum v) vs

  -- A filter of `cnt` entries: the mean, and the filter with the new value. The index has 64 bits.
  unfoldable pub filter_with : ℕ → F → Filter F → F × Filter F
  filter_with cnt val f =
      let values = set f.values (f.index % cnt) val in
      (
        o.div (sum_from (o.of_int (pos 0)) values) (o.of_int (pos cnt)),
        record { values = values; index = (f.index + 1) % 2 ^ 64 },
      )

  unfoldable pub filter_value : F → Filter F → F × Filter F
  unfolding filter_with
  filter_value val f = filter_with 8 val f

  unfoldable pub filter64_value : F → Filter F → F × Filter F
  unfolding filter_with
  filter64_value val f = filter_with 64 val f

  abbrev pub square : F → F
  square a = o.mul a a

  abbrev pub degrees : F → F
  degrees a = o.div (o.mul a (o.of_int (pos 180))) o.pi

  abbrev pub thousandth : F → F
  thousandth a = o.div a (o.of_int (pos 1000))

  -- All filters are zeros; pwr is 0.0. The arguments are the descriptor of the accelerometer, and what
  -- each of the two attempts to open the INA226 finds; `none` is the result 1.
  unfoldable pub sensors_start :
      Option ℕ → Option ℕ × Option ℕ → Option ℕ × Option ℕ → Option (Sensors F)
  sensors_start none first second = none
  sensors_start (some fd) first second =
      let empty : Filter F = record { values = replicate 8 (o.of_int (pos 0)); index = 0 } in
      let started : Sensors F = record {
        f_x = empty;
        f_y = empty;
        f_z = empty;
        f_vbat = record { values = replicate 64 (o.of_int (pos 0)); index = 0 };
        f_curr = empty;
        pwr = o.of_int (pos 0);
        published = [];
      } in
      elim (ina226_open first.0 first.1) [
        | some ina_fd ↦ some started
        | none ↦ elim (ina226_open second.0 second.1) [ none ↦ none | some ina_fd ↦ some started ]
      ]

  unfoldable pub sensors_cycle : Readings → Sensors F → Sensors F
  sensors_cycle r s =
      let (v, f_vbat) =
        filter64_value (o.of_int (pos (ina226_get_voltage r.busvoltage))) s.f_vbat in
      let (c, f_curr) = filter_value (o.of_int (pos (ina226_get_current r.current))) s.f_curr in
      let pwr = o.add s.pwr (o.div (o.div c (o.of_int (pos 3600))) (o.of_int (pos 20))) in
      let (ax, f_x) = filter_value (o.of_int (axis r.x)) s.f_x in
      let (ay, f_y) = filter_value (o.of_int (axis r.y)) s.f_y in
      let (az, f_z) = filter_value (o.of_int (axis r.z)) s.f_z in
      let angle_x = o.atan (o.div ax (o.sqrt (o.add (square ay) (square az)))) in
      let angle_y = o.atan (o.div ay (o.sqrt (o.add (square ax) (square az)))) in
      let angle_z = o.atan (o.div (o.sqrt (o.add (square ax) (square ay))) az) in
      let status : SensorsStatus F = record {
        angle_x = degrees angle_x;
        angle_y = degrees angle_y;
        angle_z = degrees angle_z;
        vbat = thousandth v;
        curr = thousandth c;
        pwr = pwr;
      } in
      record {
        f_x = f_x;
        f_y = f_y;
        f_z = f_z;
        f_vbat = f_vbat;
        f_curr = f_curr;
        pwr = pwr;
        published = s.published ++ (status ∷ []);
      }

  unfoldable pub sensors_cycles : List Readings → Sensors F → Sensors F
  sensors_cycles [] s = s
  sensors_cycles (r ∷ rs) s = sensors_cycles rs (sensors_cycle r s)
