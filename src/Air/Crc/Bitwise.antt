-- ===== src/Air/Crc/Bitwise.antt =====
-- The checksum by its definition: a register of 16 bits that is divided by x^16 + x^12 + x^5 + 1, a
-- bit at a time, the highest bit first.
use rhex_service.Base.{
  ℕ, zero, suc, ◌+◌, ◌*◌, ◌/◌, ◌%◌, ◌^◌, ◌≤◌, ◌<◌, ◌≡◌, refl, sym, ap, ap₂, ◌∙◌, arith, List, [],
  ◌∷◌, Bool, true, false, none, some,
}
use rhex_service.Base.{
  if◌then◌else◌, ltb, leb, ◌==◌, ==_iff, get_or, length, if_intro, ltb→lt, lt→ltb, le→ltb, ◌++◌,
  append_assoc, All, length-append, get_or-middle,
}
use rhex_service.Base.Bits.{
  bit_xor_fields, bit_xor-lt, bit_xor-right_comm, double_xor, xor_eq, bit_xor_assoc, bit_xor_comm,
  bit_xor-zero, zero-bit_xor, passes, passes_each,
}
use rhex_service.Air.Crc.{vt_crc16worker, crc_loop, vt_crc16, crch, crcl, crc16, exchange}
use Prim.Native.Nat.{bit_xor, bit_and}
use native.Mathlib.Nat.{pow-suc, one-le-pow}

-- One bit of the division.
abbrev pub crc_bit : ℕ → ℕ
crc_bit r = if leb 32768 r then bit_xor (r * 2 % 65536) 0x1021 else r * 2 % 65536

unfoldable pub crc_bits : ℕ → ℕ → ℕ
crc_bits zero r = r
crc_bits (suc n) r = crc_bits n (crc_bit r)

-- A byte enters at the top.
unfoldable pub crc_byte : ℕ → ℕ → ℕ
crc_byte r byte = crc_bits 8 (bit_xor r (byte * 256))

unfoldable pub crc_bytes : List ℕ → ℕ → ℕ
crc_bytes [] r = r
crc_bytes (b ∷ bs) r = crc_bytes bs (crc_byte r b)

module _ (x y : ℕ) (hx : x < 65536) (hy : y < 32768) where
  split_word : bit_xor x y ≡ x / 32768 * 32768 + bit_xor (x % 32768) y
  split_word = omega (
    arith,
    xor_eq x (x / 32768 * 2 ^ 15 + x % 32768) y (0 * 2 ^ 15 + y) (omega arith) (omega arith),
    bit_xor_fields 15 (x / 32768) (x % 32768) 0 y (omega arith) (omega arith),
    bit_xor-zero (x / 32768),
  )

  same_top : leb 32768 (bit_xor x y) ≡ leb 32768 x
  same_top = ground (arith, split_word, bit_xor-lt 15 (x % 32768) y (omega arith) (omega arith))

  moved : bit_xor x y * 2 % 65536 ≡ bit_xor (x * 2 % 65536) (y * 2)
  moved = omega (
    arith,
    split_word,
    bit_xor-lt 15 (x % 32768) y (omega arith) (omega arith),
    double_xor (x % 32768) y,
    xor_eq (x * 2 % 65536) (x % 32768 * 2) (y * 2) (y * 2) (omega arith) refl,
  )

  -- A word without its highest bit only moves along.
  crc_bit_linear : crc_bit (bit_xor x y) ≡ bit_xor (crc_bit x) (y * 2)
  crc_bit_linear = rw (same_top, moved) (branches (leb 32768 x))
    where
      branches :
          (b : Bool)
          → (if b
              then bit_xor (bit_xor (x * 2 % 65536) (y * 2)) 0x1021
              else bit_xor (x * 2 % 65536) (y * 2))
            ≡ bit_xor (if b then bit_xor (x * 2 % 65536) 0x1021 else x * 2 % 65536) (y * 2)
      branches true = bit_xor-right_comm (x * 2 % 65536) (y * 2) 0x1021
      branches false = refl

crc_bit-lt : (x : ℕ) → crc_bit x < 65536
crc_bit-lt x =
    if_intro (λ r. r < 65536) (leb 32768 x)
      (bit_xor-lt 16 (x * 2 % 65536) 0x1021 (omega arith) (omega arith)) (omega arith)

moved_more : (n y : ℕ) → y * 2 * 2 ^ n ≡ y * 2 ^ suc n
moved_more n y = grind (arith, pow-suc 2 n)

below_top : (n y : ℕ) → y * 2 ^ suc n < 65536 → y < 32768
below_top n y h = grind (arith, one-le-pow n 2, moved_more n y)

-- A low part of the register stays as it is until it reaches the top.
crc_bits_linear :
    (n x y : ℕ)
    → x < 65536
    → y * 2 ^ n < 65536
    → crc_bits n (bit_xor x y) ≡ bit_xor (crc_bits n x) (y * 2 ^ n)
unfolding crc_bits
crc_bits_linear zero x y hx hy = ap (λ z. bit_xor x z) {y = y * 2 ^ 0} (omega arith)
crc_bits_linear (suc n) x y hx hy =
    ap (crc_bits n) (crc_bit_linear x y hx (below_top n y hy))
    ∙ crc_bits_linear n (crc_bit x) (y * 2) (crc_bit-lt x) (omega (arith, moved_more n y))
    ∙ ap (λ z. bit_xor (crc_bits n (crc_bit x)) z) (moved_more n y)

-- What the routine does once it has the byte at the top, `r`, and the byte below, `a1`.
low_byte : ℕ → ℕ
low_byte r =
    let masked = bit_and (crc16 (exchange r) (bit_xor (exchange r) r)) 0x0ff0 in
    bit_xor (crcl (masked * 2 % 65536)) (bit_xor r (crch masked))

abbrev tail : ℕ → ℕ → ℕ
tail a1 r =
    let masked = bit_and (crc16 (exchange r) (bit_xor (exchange r) r)) 0x0ff0 in
    crc16 (bit_xor (crch (masked * 2 % 65536)) (bit_xor a1 (crcl masked))) (low_byte r)

tail_table : passes (λ r. tail 0 r == crc_bits 8 (r * 256)) 256 ≡ true
unfolding passes low_byte crc_bits
tail_table = refl

low_byte_table : passes (λ r. ltb (low_byte r) 256) 256 ≡ true
unfolding passes low_byte
low_byte_table = refl

low_byte-lt : (r : ℕ) → r < 256 → low_byte r < 256
low_byte-lt r h =
    ltb→lt (low_byte r) 256 (passes_each (λ k. ltb (low_byte k) 256) 256 low_byte_table r h)

-- The byte below enters the high byte of the result, and nothing else.
join :
    (h a l a1 : ℕ)
    → l < 256
    → crc16 (bit_xor h (bit_xor a1 a)) l ≡ bit_xor (crc16 (bit_xor h (bit_xor 0 a)) l) (a1 * 256)
join h a l a1 hl = omega (
  arith,
  bit_xor_fields 8 (bit_xor h (bit_xor 0 a)) l a1 0 (omega arith) (omega arith),
  xor_eq (bit_xor h (bit_xor 0 a) * 256 + l) (bit_xor h (bit_xor 0 a) * 2 ^ 8 + l) (a1 * 256)
      (a1 * 2 ^ 8 + 0) (omega arith) (omega arith),
  bit_xor-zero l,
  ap (λ z. bit_xor (bit_xor h z) a1) (zero-bit_xor a),
  bit_xor_assoc h a a1,
  ap (λ z. bit_xor h z) (bit_xor_comm a a1),
)

tail_linear : (a1 r : ℕ) → r < 256 → tail a1 r ≡ bit_xor (tail 0 r) (a1 * 256)
tail_linear a1 r h =
    let masked : ℕ = bit_and (crc16 (exchange r) (bit_xor (exchange r) r)) 0x0ff0 in
    join (crch (masked * 2 % 65536)) (crcl masked) (low_byte r) a1 (low_byte-lt r h)

opened : (crc byte : ℕ) → vt_crc16worker crc byte ≡ tail (crcl crc) (bit_xor byte (crch crc))
unfolding vt_crc16worker low_byte
opened crc byte = refl

-- The register with the byte at its top, in two parts.
entered :
    (crc byte : ℕ)
    → crc < 65536
    → bit_xor crc (byte * 256) ≡ bit_xor (bit_xor byte (crch crc) * 256) (crcl crc)
entered crc byte hc = omega (
  arith,
  xor_eq crc (crch crc * 2 ^ 8 + crcl crc) (byte * 256) (byte * 2 ^ 8 + 0) (omega arith)
      (omega arith),
  bit_xor_fields 8 (crch crc) (crcl crc) byte 0 (omega arith) (omega arith),
  xor_eq (bit_xor byte (crch crc) * 256) (bit_xor byte (crch crc) * 2 ^ 8 + 0) (crcl crc)
      (0 * 2 ^ 8 + crcl crc) (omega arith) (omega arith),
  bit_xor_fields 8 (bit_xor byte (crch crc)) 0 0 (crcl crc) (omega arith) (omega arith),
  bit_xor-zero (crcl crc),
  zero-bit_xor (crcl crc),
  bit_xor-zero (bit_xor byte (crch crc)),
  bit_xor_comm byte (crch crc),
)

pub vt_crc16worker_lem :
    (crc byte : ℕ) → crc < 65536 → byte < 256 → vt_crc16worker crc byte ≡ crc_byte crc byte
unfolding crc_byte
vt_crc16worker_lem crc byte hc hb =
    opened crc byte
    ∙ tail_linear (crcl crc) r small
    ∙ ap (λ z. bit_xor z (crcl crc * 256))
        ((==_iff _ _).0
          (passes_each (λ k. tail 0 k == crc_bits 8 (k * 256)) 256 tail_table r small))
    ∙ sym (crc_bits_linear 8 (r * 256) (crcl crc) (omega (arith, small)) (omega arith))
    ∙ ap (crc_bits 8) (sym (entered crc byte hc))
  where
    r : ℕ
    r = bit_xor byte (crch crc)

    small : bit_xor byte (crch crc) < 256
    small = bit_xor-lt 8 byte (crch crc) (omega arith) (omega arith)

crc_bits-lt : (n x : ℕ) → x < 65536 → crc_bits n x < 65536
unfolding crc_bits
crc_bits-lt zero x h = h
crc_bits-lt (suc n) x h = crc_bits-lt n (crc_bit x) (crc_bit-lt x)

crc_byte-lt : (r byte : ℕ) → r < 65536 → byte < 256 → crc_byte r byte < 65536
unfolding crc_byte
crc_byte-lt r byte h hb =
    crc_bits-lt 8 (bit_xor r (byte * 256)) (bit_xor-lt 16 r (byte * 256) h (omega arith))

-- The loop when the bytes of `rest` are left.
crc_loop_lem :
    (fuel : ℕ) (pre rest behind : List ℕ) (size i crc : ℕ)
    → All (λ b. b < 256) rest
    → i ≡ length pre
    → size ≡ length pre + length rest
    → size < 65536
    → length rest < fuel
    → crc < 65536
    → crc_loop fuel (pre ++ (rest ++ behind)) size i crc ≡ some (crc_bytes rest crc)
unfolding crc_loop crc_bytes
crc_loop_lem zero pre rest behind size i crc hb ei es hs hf hc = absurd (omega arith)
crc_loop_lem (suc fuel) pre [] behind size i crc hb ei es hs hf hc =
    rw (le→ltb i size (omega arith)) refl
crc_loop_lem (suc fuel) pre (b ∷ rest) behind size i crc hb ei es hs hf hc =
    rw (lt→ltb i size (omega arith)) (
      ap₂ (crc_loop fuel (pre ++ (b ∷ (rest ++ behind))) size) {x = (i + 1) % 65536} {y = i + 1}
        (omega arith)
        (ap (vt_crc16worker crc) (
            ap (λ j. get_or (pre ++ (b ∷ (rest ++ behind))) j 0) ei
            ∙ get_or-middle pre b (rest ++ behind) 0)
          ∙ vt_crc16worker_lem crc b hc hb.0)
      ∙ ap (λ bytes. crc_loop fuel bytes size (i + 1) (crc_byte crc b))
          (sym (append_assoc pre (b ∷ []) (rest ++ behind)))
      ∙ crc_loop_lem fuel (pre ++ (b ∷ [])) rest behind size (i + 1) (crc_byte crc b) hb.1
          (omega (arith, ei, length-append pre (b ∷ [])))
          (omega (arith, es, length-append pre (b ∷ []))) hs (omega arith)
          (crc_byte-lt crc b hc hb.0))

-- vt_crc16 ends on fewer than 2^16 bytes, within one round more than there are bytes, and gives the
-- remainder that the division of these bytes by x^16 + x^12 + x^5 + 1, a bit at a time, leaves in a
-- register that starts with the seed, whatever lies behind them.
pub vt_crc16-eq-crc_bytes :
    (fuel : ℕ) (bytes behind : List ℕ) (seed : ℕ)
    → All (λ b. b < 256) bytes
    → length bytes < 65536
    → length bytes < fuel
    → seed < 65536
    → vt_crc16 fuel (bytes ++ behind) (length bytes) seed ≡ some (crc_bytes bytes seed)
unfolding vt_crc16
vt_crc16-eq-crc_bytes fuel bytes behind seed hb hl hf hs =
    crc_loop_lem fuel [] bytes behind (length bytes) 0 seed hb refl (omega arith) hl hf hs

-- On 2^16 bytes and more the counter never reaches the size, and the loop does not end.
vt_crc16_endless :
    (fuel : ℕ) (bytes : List ℕ) (size i crc : ℕ)
    → 65536 ≤ size
    → i < 65536
    → crc_loop fuel bytes size i crc ≡ none
unfolding crc_loop
vt_crc16_endless zero bytes size i crc hs hi = refl
vt_crc16_endless (suc fuel) bytes size i crc hs hi = rw (lt→ltb i size (omega arith)) (
    vt_crc16_endless fuel bytes size ((i + 1) % 65536) (vt_crc16worker crc (get_or bytes i 0)) hs
      (omega arith))
