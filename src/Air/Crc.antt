-- ===== src/Air/Crc.antt =====
-- rhex_air/control/crc.c: the checksum of the telemetry packet, a byte at a time.
pub mod Bitwise
use rhex_service.Base.{
  ℕ, zero, suc, ◌+◌, ◌-◌, ◌*◌, ◌/◌, ◌%◌, ◌^◌, List, [], ◌∷◌, Bool, Option, none, some,
}
use rhex_service.Base.{if◌then◌else◌, ltb, get_or}
use Prim.Native.Nat.{bit_xor, bit_and, bit_or}

-- The union: a uint16_t and its two bytes, the low one first.
abbrev pub crcl : ℕ → ℕ
crcl u = u % 256

abbrev pub crch : ℕ → ℕ
crch u = u / 256 % 256

abbrev pub crc16 : ℕ → ℕ → ℕ
crc16 high low = high * 256 + low

-- A byte with its halves exchanged.
abbrev pub exchange : ℕ → ℕ
exchange r = bit_or (r * 16 % 256) (r / 16)

-- The statements in their order; `masked` is the word after `&= 0x0ff0`.
unfoldable pub vt_crc16worker : ℕ → ℕ → ℕ
vt_crc16worker icrc r0 =
    let r1 = bit_xor r0 (crch icrc) in
    let a1 = crcl icrc in
    let high = exchange r1 in
    let low = bit_xor high r1 in
    let masked = bit_and (crc16 high low) 0x0ff0 in
    let r2 = bit_xor r1 (crch masked) in
    let a2 = bit_xor a1 (crcl masked) in
    let shifted = masked * 2 % 65536 in
    crc16 (bit_xor (crch shifted) a2) (bit_xor (crcl shifted) r2)

-- The loop on a 16-bit counter, from its value `i` on. `none`: it has not ended within the fuel.
unfoldable pub crc_loop : ℕ → List ℕ → ℕ → ℕ → ℕ → Option ℕ
crc_loop zero bytes size i crc = none
crc_loop (suc fuel) bytes size i crc =
    let rest = crc_loop fuel bytes size ((i + 1) % 65536) (vt_crc16worker crc (get_or bytes i 0)) in
    if ltb i size then rest else some crc

unfoldable pub vt_crc16 : ℕ → List ℕ → ℕ → ℕ → Option ℕ
vt_crc16 fuel bytes size seed = crc_loop fuel bytes size 0 seed
