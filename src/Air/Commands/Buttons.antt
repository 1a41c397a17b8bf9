-- ===== src/Air/Commands/Buttons.antt =====
-- The buttons as the bits of a word.
use rhex_service.Base.{
  ℕ, suc, ◌+◌, ◌*◌, ◌/◌, ◌%◌, ◌^◌, ◌≡◌, ◌<◌, ◌≤◌, subst, refl, sym, ap, ap₂, ◌∙◌, arith, List, [],
  ◌∷◌, Bool, true, false,
}
use rhex_service.Base.{if◌then◌else◌, ◌==◌, length}
use rhex_service.Air.Commands.{bits_from}
use native.Mathlib.Nat.{div-div-eq-div-mul, pow-suc}

-- The word with these bits, the lowest first.
abbrev pub word_of : List Bool → ℕ
word_of [] = 0
word_of (b ∷ bs) = (if b then 1 else 0) + 2 * word_of bs

lowest : (b : Bool) (rest : ℕ) → (((if b then 1 else 0) + 2 * rest) % 2 == 1) ≡ b
lowest true rest = ground arith
lowest false rest = ground arith

next_bit : (word bit : ℕ) → word / 2 ^ (bit + 1) ≡ word / 2 ^ bit / 2
next_bit word bit =
    ap (λ k. word / 2 ^ k) {x = bit + 1} {y = suc bit} (omega arith)
    ∙ ap (λ k. word / k) (pow-suc 2 bit)
    ∙ sym (div-div-eq-div-mul word (2 ^ bit) 2)

bits_of :
    (bs : List Bool) (word bit : ℕ)
    → word / 2 ^ bit ≡ word_of bs
    → bits_from bit (length bs) word ≡ bs
bits_of [] word bit e = refl
bits_of (b ∷ bs) word bit e =
    ap₂ (λ x xs. x ∷ xs) (ap (λ n. n % 2 == 1) e ∙ lowest b (word_of bs))
      (bits_of bs word (bit + 1) (next_bit word bit ∙ ap (λ n. n / 2) e ∙ half b (word_of bs)))
  where
    half : (b : Bool) (rest : ℕ) → ((if b then 1 else 0) + 2 * rest) / 2 ≡ rest
    half true rest = omega arith
    half false rest = omega arith

-- The buttons that are read from a word are the bits that the word was made of.
pub bits_from-word_of : (bs : List Bool) → bits_from 0 (length bs) (word_of bs) ≡ bs
bits_from-word_of bs = bits_of bs (word_of bs) 0 (omega arith)

word_of_least : (bs : List Bool) → word_of bs < 2 ^ length bs
word_of_least [] = omega arith
word_of_least (b ∷ bs) = omega (arith, word_of_least bs, pow-suc 2 (length bs), bit_small b)
  where
    bit_small : (c : Bool) → (if c then 1 else 0) ≤ 1
    bit_small true = omega arith
    bit_small false = omega arith

pub word_of_bound : (bs : List Bool) (n : ℕ) → length bs ≡ n → word_of bs < 2 ^ n
word_of_bound bs n e = subst (λ k. word_of bs < 2 ^ k) e (word_of_least bs)
