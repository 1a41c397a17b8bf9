-- ===== src/Ground/Mavlink/X25.antt =====
-- The checksum of MAVLink by its definition: a register of 16 bits that is divided by
-- x^16 + x^12 + x^5 + 1, a bit at a time, the lowest bit first.
use rhex_service.Base.{
  ℕ, zero, suc, ◌+◌, ◌*◌, ◌/◌, ◌%◌, ◌^◌, ◌<◌, ◌≡◌, refl, sym, ap, ◌∙◌, arith, List, [], ◌∷◌, ◌++◌,
  Bool, true, false, All,
}
use rhex_service.Base.{if◌then◌else◌, ◌==◌, ==_iff}
use rhex_service.Base.Bits.{
  bit_xor_fields, bit_xor_step, bit_xor-lt, bit_xor-right_comm, xor_eq, bit_xor_comm, bit_xor-zero,
  zero-bit_xor, passes, passes_each,
}
use rhex_service.Ground.Mavlink.{crc_accumulate, crc_accumulate_buffer}
use Prim.Native.Nat.{bit_xor}
use native.Mathlib.Nat.{pow-suc}

abbrev pub x25_bit : ℕ → ℕ
x25_bit r = if r % 2 == 1 then bit_xor (r / 2) 0x8408 else r / 2

unfoldable pub x25_bits : ℕ → ℕ → ℕ
x25_bits zero r = r
x25_bits (suc n) r = x25_bits n (x25_bit r)

-- A byte enters at the bottom.
unfoldable pub x25_byte : ℕ → ℕ → ℕ
unfolding x25_bits
x25_byte r byte = x25_bits 8 (bit_xor r byte)

unfoldable pub x25_bytes : List ℕ → ℕ → ℕ
x25_bytes [] r = r
x25_bytes (b ∷ bs) r = x25_bytes bs (x25_byte r b)

-- A word without its lowest bit only moves along.
x25_bit_linear : (x y : ℕ) → x25_bit (bit_xor x (y * 2)) ≡ bit_xor (x25_bit x) y
x25_bit_linear x y = rw (same_bit, moved) (branches (x % 2 == 1))
  where
    same_bit : bit_xor x (y * 2) % 2 ≡ x % 2
    same_bit = omega (arith, bit_xor_step x (y * 2))

    moved : bit_xor x (y * 2) / 2 ≡ bit_xor (x / 2) y
    moved =
        omega
          (arith, bit_xor_step x (y * 2), xor_eq (x / 2) (x / 2) (y * 2 / 2) y refl (omega arith))

    branches :
        (b : Bool)
        → (if b then bit_xor (bit_xor (x / 2) y) 0x8408 else bit_xor (x / 2) y)
          ≡ bit_xor (if b then bit_xor (x / 2) 0x8408 else x / 2) y
    branches true = bit_xor-right_comm (x / 2) y 0x8408
    branches false = refl

-- A high part of the register only moves down until it reaches the bottom.
x25_bits_linear : (n x y : ℕ) → x25_bits n (bit_xor x (y * 2 ^ n)) ≡ bit_xor (x25_bits n x) y
unfolding x25_bits
x25_bits_linear zero x y = ap (λ z. bit_xor x z) {x = y * 2 ^ 0} (omega arith)
x25_bits_linear (suc n) x y =
    ap (λ z. x25_bits n (x25_bit (bit_xor x z))) {x = y * 2 ^ suc n} {y = y * 2 ^ n * 2}
      (grind (arith, pow-suc 2 n))
    ∙ ap (x25_bits n) (x25_bit_linear x (y * 2 ^ n))
    ∙ x25_bits_linear n (x25_bit x) y

-- What the routine does once it has the byte at the bottom, `t`, and the byte above, `h`.
doubled : ℕ → ℕ
doubled t = bit_xor t (t * 16) % 256

abbrev tail : ℕ → ℕ → ℕ
tail h t = bit_xor (bit_xor (bit_xor h (doubled t * 256)) (doubled t * 8)) (doubled t / 16) % 65536

tail_table : passes (λ t. tail 0 t == x25_bits 8 t) 256 ≡ true
unfolding passes doubled x25_bits
tail_table = refl

opened : (crc byte : ℕ) → crc_accumulate byte crc ≡ tail (crc / 256) (bit_xor byte (crc % 256))
unfolding crc_accumulate doubled
opened crc byte = refl

doubled-lt : (t : ℕ) → doubled t < 256
unfolding doubled
doubled-lt t = omega arith

-- The byte above enters the result as it is.
join :
    (h a b c : ℕ)
    → h < 65536
    → a < 65536
    → b < 65536
    → c < 65536
    → bit_xor (bit_xor (bit_xor h a) b) c % 65536
      ≡ bit_xor (bit_xor (bit_xor (bit_xor 0 a) b) c % 65536) h
join h a b c hh ha hb hc = omega (
  arith,
  bit_xor-lt 16 h a hh ha,
  bit_xor-lt 16 (bit_xor h a) b (bit_xor-lt 16 h a hh ha) hb,
  low,
  high,
  xor_eq (bit_xor (bit_xor (bit_xor 0 a) b) c % 65536) (bit_xor (bit_xor (bit_xor 0 a) b) c) h h
      (omega (arith, low)) refl,
  moved,
)
  where
    low : bit_xor (bit_xor (bit_xor 0 a) b) c < 65536
    low =
        bit_xor-lt 16 (bit_xor (bit_xor 0 a) b) c
          (bit_xor-lt 16 (bit_xor 0 a) b (bit_xor-lt 16 0 a (omega arith) ha) hb) hc

    high : bit_xor (bit_xor (bit_xor h a) b) c < 65536
    high =
        bit_xor-lt 16 (bit_xor (bit_xor h a) b) c
          (bit_xor-lt 16 (bit_xor h a) b (bit_xor-lt 16 h a hh ha) hb) hc

    moved : bit_xor (bit_xor (bit_xor h a) b) c ≡ bit_xor (bit_xor (bit_xor (bit_xor 0 a) b) c) h
    moved =
        ap (λ z. bit_xor (bit_xor z b) c)
          (bit_xor_comm h a ∙ ap (λ z. bit_xor z h) (sym (zero-bit_xor a)))
        ∙ ap (λ z. bit_xor z c) (bit_xor-right_comm (bit_xor 0 a) h b)
        ∙ bit_xor-right_comm (bit_xor (bit_xor 0 a) b) h c

-- The register with the byte at its bottom, in two parts.
entered :
    (crc byte : ℕ)
    → byte < 256
    → bit_xor crc byte ≡ bit_xor (bit_xor byte (crc % 256)) (crc / 256 * 2 ^ 8)
entered crc byte hb = omega (
  arith,
  xor_eq crc (crc / 256 * 2 ^ 8 + crc % 256) byte (0 * 2 ^ 8 + byte) (omega arith) (omega arith),
  bit_xor_fields 8 (crc / 256) (crc % 256) 0 byte (omega arith) (omega arith),
  bit_xor-zero (crc / 256),
  bit_xor_comm (crc % 256) byte,
  xor_eq (bit_xor byte (crc % 256)) (0 * 2 ^ 8 + bit_xor byte (crc % 256)) (crc / 256 * 2 ^ 8)
      (crc / 256 * 2 ^ 8 + 0) (omega arith) (omega arith),
  bit_xor_fields 8 0 (bit_xor byte (crc % 256)) (crc / 256) 0
      (bit_xor-lt 8 byte (crc % 256) hb (omega arith)) (omega arith),
  zero-bit_xor (crc / 256),
  bit_xor-zero (bit_xor byte (crc % 256)),
)

pub crc_accumulate_lem :
    (crc byte : ℕ) → crc < 65536 → byte < 256 → crc_accumulate byte crc ≡ x25_byte crc byte
unfolding x25_byte
crc_accumulate_lem crc byte hc hb =
    opened crc byte
    ∙ join (crc / 256) (doubled t * 256) (doubled t * 8) (doubled t / 16) (omega arith)
        (omega (arith, doubled-lt t)) (omega (arith, doubled-lt t)) (omega (arith, doubled-lt t))
    ∙ ap (λ z. bit_xor z (crc / 256))
        ((==_iff _ _).0 (passes_each (λ k. tail 0 k == x25_bits 8 k) 256 tail_table t small))
    ∙ sym (x25_bits_linear 8 t (crc / 256))
    ∙ ap (x25_bits 8) (sym (entered crc byte hb))
  where
    t : ℕ
    t = bit_xor byte (crc % 256)

    small : bit_xor byte (crc % 256) < 256
    small = bit_xor-lt 8 byte (crc % 256) hb (omega arith)

crc_accumulate-lt : (crc byte : ℕ) → crc_accumulate byte crc < 65536
unfolding crc_accumulate
crc_accumulate-lt crc byte = omega arith

pub crc_accumulate_buffer_lem :
    (bytes : List ℕ) (crc : ℕ)
    → All (λ b. b < 256) bytes
    → crc < 65536
    → crc_accumulate_buffer bytes crc ≡ x25_bytes bytes crc
unfolding crc_accumulate_buffer x25_bytes
crc_accumulate_buffer_lem [] crc hb hc = refl
crc_accumulate_buffer_lem (b ∷ bs) crc hb hc =
    crc_accumulate_buffer_lem bs (crc_accumulate b crc) hb.1 (crc_accumulate-lt crc b)
    ∙ ap (x25_bytes bs) (crc_accumulate_lem crc b hc hb.0)

pub crc_accumulate_buffer-append :
    (xs ys : List ℕ) (crc : ℕ)
    → crc_accumulate_buffer (xs ++ ys) crc ≡ crc_accumulate_buffer ys (crc_accumulate_buffer xs crc)
unfolding crc_accumulate_buffer
crc_accumulate_buffer-append [] ys crc = refl
crc_accumulate_buffer-append (x ∷ xs) ys crc =
    crc_accumulate_buffer-append xs ys (crc_accumulate x crc)

pub crc_accumulate_buffer-lt :
    (bytes : List ℕ) (crc : ℕ) → crc < 65536 → crc_accumulate_buffer bytes crc < 65536
unfolding crc_accumulate_buffer
crc_accumulate_buffer-lt [] crc h = h
crc_accumulate_buffer-lt (b ∷ bs) crc h =
    crc_accumulate_buffer-lt bs (crc_accumulate b crc) (crc_accumulate-lt crc b)
