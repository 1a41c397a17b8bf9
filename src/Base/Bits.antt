-- ===== src/Base/Bits.antt =====
-- Exclusive or of the native numbers at variables: its lowest digit, its laws, and how it meets
-- shifts by a number of bits.
use Prim.Native.Nat.{
  ℕ, zero, suc, ◌+◌, ◌*◌, ◌/◌, ◌%◌, ◌^◌, ◌≤◌, ◌<◌, bit_xor, bit_xor-bitwise, digits, differ,
}
use mathlib.Core.Path.{◌≡◌, refl, ap, ap₂, ◌∙◌, sym, subst}
use native.Mathlib.Decide.{dec_lt}
use mathlib.Core.Bool.{Bool, true, ◌&&◌}
use native.Mathlib.Omega.{arith}
use native.Mathlib.Nat.{pow-suc}

xor_digits : ℕ → ℕ → ℕ → ℕ
xor_digits n a b = digits (λ b. b) differ n a b

differ_lem : (a b : ℕ) → differ (a % 2) (b % 2) ≡ (a + b) % 2
differ_lem a b = bits (a % 2) (b % 2) (omega arith) (omega arith) ∙ omega arith
  where
    bits : (x y : ℕ) → x < 2 → y < 2 → differ x y ≡ (x + y) % 2
    bits zero zero p q = refl
    bits zero (suc zero) p q = refl
    bits (suc zero) zero p q = refl
    bits (suc zero) (suc zero) p q = refl
    bits x (suc (suc y)) p q = absurd (omega arith)
    bits (suc (suc x)) y p q = absurd (omega arith)

-- The fuel does not matter once it is as large as the first number.
digits_enough : (n m a b : ℕ) → a ≤ n → a ≤ m → xor_digits n a b ≡ xor_digits m a b
unfolding xor_digits
digits_enough zero zero a b p q = refl
digits_enough zero (suc m) zero b p q = refl
digits_enough zero (suc m) (suc a) b p q = absurd (omega arith)
digits_enough (suc n) zero zero b p q = refl
digits_enough (suc n) zero (suc a) b p q = absurd (omega arith)
digits_enough (suc n) (suc m) zero b p q = refl
digits_enough (suc n) (suc m) (suc a) b p q =
    ap (λ d. d * 2 + differ (suc a % 2) (b % 2))
      (digits_enough n m (suc a / 2) (b / 2) (omega arith) (omega arith))

pub bit_xor_step : (a b : ℕ) → bit_xor a b ≡ bit_xor (a / 2) (b / 2) * 2 + (a + b) % 2
unfolding xor_digits
bit_xor_step zero b = simp bit_xor-bitwise (omega arith)
bit_xor_step (suc a) b =
    bit_xor-bitwise (suc a) b
    ∙ ap₂ (λ d l. d * 2 + l)
        (digits_enough a (suc a / 2) (suc a / 2) (b / 2) (omega arith) (omega arith)
          ∙ sym (bit_xor-bitwise (suc a / 2) (b / 2)))
        (differ_lem (suc a) b)

-- Induction on the digits of a number.
halving {ℓ} : (P : ℕ → Type ℓ) → P 0 → ((n : ℕ) → P (n / 2) → P n) → (k n : ℕ) → n ≤ k → P n
halving P base next k zero h = base
halving P base next zero (suc n) h = absurd (omega arith)
halving P base next (suc k) (suc n) h =
    next (suc n) (halving P base next k (suc n / 2) (omega arith))

pub zero-bit_xor : (b : ℕ) → bit_xor 0 b ≡ b
zero-bit_xor b = bit_xor-bitwise 0 b

pub bit_xor-zero : (a : ℕ) → bit_xor a 0 ≡ a
bit_xor-zero a =
    halving (λ n. bit_xor n 0 ≡ n) refl (λ n ih. omega (arith, bit_xor_step n 0, ih)) a a
      (omega arith)

pub bit_xor_comm : (a b : ℕ) → bit_xor a b ≡ bit_xor b a
bit_xor_comm a =
    halving (λ n. (b : ℕ) → bit_xor n b ≡ bit_xor b n) (λ b. zero-bit_xor b ∙ sym (bit_xor-zero b))
      (λ n ih b. omega (arith, bit_xor_step n b, bit_xor_step b n, ih (b / 2))) a a (omega arith)

-- Half of an exclusive or, and its last digit.
half_lem : (a b : ℕ) → (bit_xor a b / 2 ≡ bit_xor (a / 2) (b / 2)) × (bit_xor a b % 2 ≡ (a + b) % 2)
half_lem a b = omega (arith, bit_xor_step a b)

pub bit_xor_assoc : (a b c : ℕ) → bit_xor (bit_xor a b) c ≡ bit_xor a (bit_xor b c)
bit_xor_assoc a =
    halving (λ n. (b c : ℕ) → bit_xor (bit_xor n b) c ≡ bit_xor n (bit_xor b c))
      (λ b c. ap (λ x. bit_xor x c) (zero-bit_xor b) ∙ sym (zero-bit_xor (bit_xor b c)))
      (λ n ih b c. step n b c (ih (b / 2) (c / 2))) a a (omega arith)
  where
    step :
        (n b c : ℕ)
        → bit_xor (bit_xor (n / 2) (b / 2)) (c / 2) ≡ bit_xor (n / 2) (bit_xor (b / 2) (c / 2))
        → bit_xor (bit_xor n b) c ≡ bit_xor n (bit_xor b c)
    step n b c ih = omega (
      arith,
      bit_xor_step (bit_xor n b) c,
      bit_xor_step n (bit_xor b c),
      ap (λ x. bit_xor x (c / 2)) ((half_lem n b).0),
      ap (λ x. bit_xor (n / 2) x) ((half_lem b c).0),
      half_lem n b,
      half_lem b c,
      ih,
    )

pub bit_xor_self : (a : ℕ) → bit_xor a a ≡ 0
bit_xor_self a =
    halving (λ n. bit_xor n n ≡ 0) refl (λ n ih. omega (arith, bit_xor_step n n, ih)) a a
      (omega arith)

mul_two_pow : (k q : ℕ) → q * 2 ^ suc k ≡ 2 * (q * 2 ^ k)
mul_two_pow k q = omega (arith, ap (λ (t : ℕ). q * t) (pow-suc 2 k))

half_field : (k q r : ℕ) → (q * 2 ^ suc k + r) / 2 ≡ q * 2 ^ k + r / 2
half_field k q r = omega (arith, mul_two_pow k q)

half_lt : (k r : ℕ) → r < 2 ^ suc k → r / 2 < 2 ^ k
half_lt k r h = omega (arith, pow-suc 2 k)

pub xor_eq : (a c b d : ℕ) → a ≡ c → b ≡ d → bit_xor a b ≡ bit_xor c d
xor_eq a c b d p q = ap₂ bit_xor p q

-- Words made of a high part and `k` low bits are combined part by part.
pub bit_xor_fields :
    (k q r s t : ℕ)
    → r < 2 ^ k
    → t < 2 ^ k
    → bit_xor (q * 2 ^ k + r) (s * 2 ^ k + t) ≡ bit_xor q s * 2 ^ k + bit_xor r t
bit_xor_fields zero q r s t hr ht = omega (
  arith,
  xor_eq (q * 2 ^ 0 + r) q (s * 2 ^ 0 + t) s (omega arith) (omega arith),
  xor_eq r 0 t 0 (omega arith) (omega arith),
)
bit_xor_fields (suc k) q r s t hr ht = omega (
  arith,
  bit_xor_step (q * 2 ^ suc k + r) (s * 2 ^ suc k + t),
  bit_xor_step r t,
  ap₂ bit_xor (half_field k q r) (half_field k s t),
  bit_xor_fields k q (r / 2) s (t / 2) (half_lt k r hr) (half_lt k t ht),
  mul_two_pow k q,
  mul_two_pow k s,
  mul_two_pow k (bit_xor q s),
)

pub bit_xor-lt : (k a b : ℕ) → a < 2 ^ k → b < 2 ^ k → bit_xor a b < 2 ^ k
bit_xor-lt zero a b ha hb = omega (arith, xor_eq a 0 b 0 (omega arith) (omega arith))
bit_xor-lt (suc k) a b ha hb = omega (
  arith,
  bit_xor_step a b,
  bit_xor-lt k (a / 2) (b / 2) (half_lt k a ha) (half_lt k b hb),
  pow-suc 2 k,
)

-- Exclusive or with the last two exchanged.
pub bit_xor-right_comm : (a b c : ℕ) → bit_xor (bit_xor a b) c ≡ bit_xor (bit_xor a c) b
bit_xor-right_comm a b c =
    bit_xor_assoc a b c ∙ ap (λ x. bit_xor a x) (bit_xor_comm b c) ∙ sym (bit_xor_assoc a c b)

pub double_xor : (a b : ℕ) → bit_xor (a * 2) (b * 2) ≡ bit_xor a b * 2
double_xor a b = omega (
  arith,
  bit_xor_step (a * 2) (b * 2),
  xor_eq (a * 2 / 2) a (b * 2 / 2) b (omega arith) (omega arith),
)

-- A test of the first `n` numbers, for tables that evaluation settles.
unfoldable pub passes : (ℕ → Bool) → ℕ → Bool
passes test zero = true
passes test (suc n) = passes test n && test n

pub passes_each : (test : ℕ → Bool) (n : ℕ) → passes test n ≡ true → (k : ℕ) → k < n → test k ≡ true
unfolding passes
passes_each test zero all k below = absurd (omega arith)
passes_each test (suc n) all k below = elim (dec_lt k n) [
  | yes earlier ↦ passes_each test n (ground (arith, all)) k earlier
  | no last ↦ subst (λ j. test j ≡ true) {x = n} {y = k} (omega (arith, last)) (ground (arith, all))
]
