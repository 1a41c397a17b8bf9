-- ===== src/Base/Buffer.antt =====
-- Byte buffers of a fixed size, `memcpy` into them, and the little-endian words that the program
-- reads through casts (its targets are little-endian).
use Prim.Native.Nat.{ℕ, zero, suc, ◌+◌, ◌-◌, ◌*◌, ◌/◌, ◌%◌, ◌^◌, ◌≤◌, ◌<◌}
use mathlib.Core.Path.{◌≡◌, refl, ap, ap₂, ◌∙◌}
use mathlib.Core.Logic.{◌⊎◌, inl, inr}
use mathlib.Core.List.{List, [], ◌∷◌, ◌++◌}
use native.Mathlib.Omega.{arith}
use rhex_service.Base.Lists.{length, take, drop, get_or, length-drop}

-- `memcpy(dst + off, src, |src|)`. A byte past the end of `dst` is dropped.
unfoldable pub memcpy {ℓ} : {A : Type ℓ} → List A → ℕ → List A → List A
memcpy [] off src = []
memcpy (d ∷ ds) (suc off) src = d ∷ memcpy ds off src
memcpy (d ∷ ds) zero [] = d ∷ ds
memcpy (d ∷ ds) zero (x ∷ xs) = x ∷ memcpy ds zero xs

-- The `n` bytes of a buffer from `off` on.
abbrev pub slice {ℓ} : {A : Type ℓ} → List A → ℕ → ℕ → List A
slice buf off n = take n (drop off buf)

-- A `uint32_t` as it lies in memory.
abbrev pub le32 : ℕ → List ℕ
le32 n = n % 256 ∷ n / 256 % 256 ∷ n / 65536 % 256 ∷ n / 16777216 % 256 ∷ []

-- A `uint32_t` read at an offset.
abbrev pub get_le32 : List ℕ → ℕ → ℕ
get_le32 buf i =
    get_or buf i 0
    + 256 * get_or buf (i + 1) 0
    + 65536 * get_or buf (i + 2) 0
    + 16777216 * get_or buf (i + 3) 0

pub le32_round : (n : ℕ) (rest : List ℕ) → n < 2 ^ 32 → get_le32 (le32 n ++ rest) 0 ≡ n
le32_round n rest h = omega arith

module _ {ℓ} {A : Type ℓ} where
  pub length-memcpy :
      (dst : List A) (off : ℕ) (src : List A) → length (memcpy dst off src) ≡ length dst
  unfolding memcpy
  length-memcpy [] off src = refl
  length-memcpy (d ∷ ds) (suc off) src = ap suc (length-memcpy ds off src)
  length-memcpy (d ∷ ds) zero [] = refl
  length-memcpy (d ∷ ds) zero (x ∷ xs) = ap suc (length-memcpy ds zero xs)

  -- What lies before the copy is kept.
  pub take-memcpy_before :
      (k : ℕ) (dst : List A) (off : ℕ) (src : List A)
      → k ≤ off
      → take k (memcpy dst off src) ≡ take k dst
  unfolding memcpy
  take-memcpy_before zero dst off src h = refl
  take-memcpy_before (suc k) [] off src h = refl
  take-memcpy_before (suc k) (d ∷ ds) zero src h = absurd (omega arith)
  take-memcpy_before (suc k) (d ∷ ds) (suc off) src h =
      ap (λ r. d ∷ r) (take-memcpy_before k ds off src (omega arith))

  -- The prefix that ends with the copy is the old prefix and the source.
  pub take-memcpy :
      (dst : List A) (off : ℕ) (src : List A)
      → off + length src ≤ length dst
      → take (off + length src) (memcpy dst off src) ≡ take off dst ++ src
  unfolding memcpy
  take-memcpy [] zero [] h = refl
  take-memcpy [] zero (x ∷ xs) h = absurd (omega arith)
  take-memcpy [] (suc off) src h = absurd (omega arith)
  take-memcpy (d ∷ ds) (suc off) src h =
      ap (λ k. take k (d ∷ memcpy ds off src)) {x = suc off + length src}
        {y = suc (off + length src)} (omega arith)
      ∙ ap (λ r. d ∷ r) (take-memcpy ds off src (omega arith))
  take-memcpy (d ∷ ds) zero [] h = refl
  take-memcpy (d ∷ ds) zero (x ∷ xs) h =
      ap (λ k. take k (x ∷ memcpy ds zero xs)) {x = 0 + suc (length xs)} {y = suc (0 + length xs)}
        (omega arith)
      ∙ ap (λ r. x ∷ r) (take-memcpy ds zero xs (omega arith))

  -- Skipping bytes before the copy is copying into what is left.
  pub drop-memcpy :
      (k : ℕ) (dst : List A) (off : ℕ) (src : List A)
      → k ≤ off
      → drop k (memcpy dst off src) ≡ memcpy (drop k dst) (off - k) src
  unfolding memcpy
  drop-memcpy zero dst off src h = ap (λ o. memcpy dst o src) (omega arith)
  drop-memcpy (suc k) [] off src h = refl
  drop-memcpy (suc k) (d ∷ ds) zero src h = absurd (omega arith)
  drop-memcpy (suc k) (d ∷ ds) (suc off) src h =
      drop-memcpy k ds off src (omega arith)
      ∙ ap (λ o. memcpy (drop k ds) o src) {x = off - k} {y = suc off - suc k} (omega arith)

  -- A copy to the front leaves what lies behind it.
  pub memcpy_front :
      (dst src : List A) → length src ≤ length dst → memcpy dst 0 src ≡ src ++ drop (length src) dst
  unfolding memcpy
  memcpy_front [] [] h = refl
  memcpy_front [] (x ∷ xs) h = absurd (omega arith)
  memcpy_front (d ∷ ds) [] h = refl
  memcpy_front (d ∷ ds) (x ∷ xs) h = ap (λ r. x ∷ r) (memcpy_front ds xs (omega arith))

  -- What lies behind the copy is kept.
  pub drop-memcpy_behind :
      (k : ℕ) (dst : List A) (off : ℕ) (src : List A)
      → off + length src ≤ k
      → drop k (memcpy dst off src) ≡ drop k dst
  unfolding memcpy
  drop-memcpy_behind k [] off src h = refl
  drop-memcpy_behind zero (d ∷ ds) (suc off) src h = absurd (omega arith)
  drop-memcpy_behind (suc k) (d ∷ ds) (suc off) src h =
      drop-memcpy_behind k ds off src (omega arith)
  drop-memcpy_behind k (d ∷ ds) zero [] h = refl
  drop-memcpy_behind zero (d ∷ ds) zero (x ∷ xs) h = absurd (omega arith)
  drop-memcpy_behind (suc k) (d ∷ ds) zero (x ∷ xs) h =
      drop-memcpy_behind k ds zero xs (omega arith)

  -- A copy elsewhere leaves a slice as it is.
  pub slice-memcpy_apart :
      (at n : ℕ) (dst : List A) (off : ℕ) (src : List A)
      → (at + n ≤ off) ⊎ (off + length src ≤ at)
      → slice (memcpy dst off src) at n ≡ slice dst at n
  slice-memcpy_apart at n dst off src (inl before) =
      ap (take n) (drop-memcpy at dst off src (omega arith))
      ∙ take-memcpy_before n (drop at dst) (off - at) src (omega arith)
  slice-memcpy_apart at n dst off src (inr behind) =
      ap (take n) (drop-memcpy_behind at dst off src behind)

  -- What was copied is there.
  pub slice-memcpy :
      (dst : List A) (off : ℕ) (src : List A)
      → off + length src ≤ length dst
      → slice (memcpy dst off src) off (length src) ≡ src
  slice-memcpy dst off src h =
      ap (take (length src)) (drop-memcpy off dst off src (omega arith))
      ∙ ap₂ (λ n o. take n (memcpy (drop off dst) o src)) {x = length src} {y = 0 + length src}
          {u = off - off} {v = 0} (omega arith) (omega arith)
      ∙ take-memcpy (drop off dst) 0 src (omega (arith, length-drop off dst))
