-- ===== src/Tests/Crc.antt =====
-- The checksum of the nine digits, a known value.
use rhex_service.Base.{ℕ, ◌≡◌, refl, List, [], ◌∷◌, ◌++◌, arith, some}
use rhex_service.Air.Crc.{vt_crc16, crc_loop, vt_crc16worker}
use rhex_service.Air.Crc.Bitwise.{vt_crc16-eq-crc_bytes, crc_bits, crc_byte, crc_bytes}
use rhex_service.Ground.Mavlink.{crc_calculate, crc_accumulate_buffer, crc_accumulate}

abbrev digit_bytes : List ℕ
digit_bytes = 49 ∷ 50 ∷ 51 ∷ 52 ∷ 53 ∷ 54 ∷ 55 ∷ 56 ∷ 57 ∷ []

vt_crc16-eq-crc_bytes_example : vt_crc16 10 (digit_bytes ++ (7 ∷ [])) 9 65535 ≡ some 0x29b1
unfolding crc_bits crc_byte crc_bytes
vt_crc16-eq-crc_bytes_example =
    vt_crc16-eq-crc_bytes 10 digit_bytes (7 ∷ []) 65535 (omega arith) (omega arith) (omega arith)
      (omega arith)

vt_crc16_digits : vt_crc16 10 digit_bytes 9 65535 ≡ some 0x29b1
unfolding vt_crc16 crc_loop vt_crc16worker
vt_crc16_digits = refl

crc_calculate_digits : crc_calculate digit_bytes ≡ 0x6f91
unfolding crc_calculate crc_accumulate_buffer crc_accumulate
crc_calculate_digits = refl
