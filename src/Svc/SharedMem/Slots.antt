-- ===== src/Svc/SharedMem/Slots.antt =====
-- Where the four copies of a segment lie.
use rhex_service.Base.{
  ℕ, zero, suc, ◌+◌, ◌*◌, ◌/◌, ◌%◌, ◌^◌, ◌≤◌, ◌<◌, ◌≡◌, ◌≢◌, ◌⊎◌, inl, inr, dec_lt, ap, ◌∙◌, arith,
}
use rhex_service.Base.{length, get_or}
use rhex_service.Svc.SharedMem.{Shm, no_slot, align_size, init_slots, shm_guard, copy_at}
use native.Mathlib.Nat.{mul-le-mul_left}

-- A handle for data of `size` bytes, at any time.
pub record IsMapped (size : ℕ) (shm : Shm) : Type 0 where
  pub guarded : shm.guard ≡ shm_guard
  pub slots : shm.map.header.slot ≡ init_slots size 0 4
  pub room : length shm.map.bytes ≡ 4 * align_size size
  pub counted : shm.map.header.index < 2 ^ 32

pub align_size_bounds :
    (size : ℕ)
    → size ≤ 2 ^ 32
    → (size ≤ align_size size) × (align_size size ≤ size + 7) × (align_size size % 8 ≡ 0)
unfolding align_size
align_size_bounds size h = omega arith

offset-init_slots :
    (size k : ℕ)
    → size ≤ 2 ^ 32
    → k < 4
    → (get_or (init_slots size 0 4) k no_slot).offset ≡ align_size size * k
unfolding init_slots
offset-init_slots size zero small lt = omega (arith, align_size_bounds size small)
offset-init_slots size (suc zero) small lt = omega (arith, align_size_bounds size small)
offset-init_slots size (suc (suc zero)) small lt = omega (arith, align_size_bounds size small)
offset-init_slots size (suc (suc (suc zero))) small lt = omega (arith, align_size_bounds size small)
offset-init_slots size (suc (suc (suc (suc k)))) small lt = absurd (omega arith)

-- The place of a copy is a multiple of the aligned size.
pub copy_at_lem :
    (size index : ℕ) (shm : Shm)
    → size ≤ 2 ^ 32
    → IsMapped size shm
    → copy_at shm.map.header index ≡ align_size size * (index % 4)
copy_at_lem size index shm small v =
    ap (λ s. 8 * ((get_or s (index % 4) no_slot).offset / 8)) v.slots
    ∙ ap (λ o. 8 * (o / 8)) (offset-init_slots size (index % 4) small (omega arith))
    ∙ eighth (index % 4) (omega arith)
  where
    eighth : (k : ℕ) → k < 4 → 8 * (align_size size * k / 8) ≡ align_size size * k
    eighth zero lt = omega (arith, align_size_bounds size small)
    eighth (suc zero) lt = omega (arith, align_size_bounds size small)
    eighth (suc (suc zero)) lt = omega (arith, align_size_bounds size small)
    eighth (suc (suc (suc zero))) lt = omega (arith, align_size_bounds size small)
    eighth (suc (suc (suc (suc k)))) lt = absurd (omega arith)

one_further : (a j k : ℕ) → j < k → a * j + a ≤ a * k
one_further a j k lt = let h : a * (j + 1) ≤ a * k = mul-le-mul_left a (omega arith) in omega arith

-- Two of the copies do not overlap, and each of the four ends within the segment.
pub copies_apart : (a j k : ℕ) → j ≢ k → (a * j + a ≤ a * k) ⊎ (a * k + a ≤ a * j)
copies_apart a j k ne = elim (dec_lt j k) [
  | yes lt ↦ inl (one_further a j k lt)
  | no nlt ↦ inr (one_further a k j (omega (arith, ne, nlt)))
]

pub copy_within : (a k : ℕ) → k < 4 → a * k + a ≤ 4 * a
copy_within a k lt = omega (arith, one_further a k 4 lt)
