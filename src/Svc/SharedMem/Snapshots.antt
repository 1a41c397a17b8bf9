-- ===== src/Svc/SharedMem/Snapshots.antt =====
-- What a reader of a segment gets, and for how long it may keep its pointer.
use rhex_service.Base.{ℕ, ◌+◌, ◌-◌, ◌*◌, ◌%◌, ◌^◌, ◌≤◌, ◌<◌, ◌≡◌, ◌≢◌, refl, ap, ap₂, ◌∙◌, arith}
use rhex_service.Base.{
  Option, some_inj, Bool, true, false, not, if◌then◌else◌, List, [], ◌∷◌, All, length, take, slice,
  memcpy, length-memcpy, slice-memcpy, slice-memcpy_apart, take_all, length-replicate, replicate,
  subst, some, none, ◌==◌,
}
use rhex_service.Base.Int.{pos}
use rhex_service.Svc.SharedMem.{
  ShmEnv, Segment, Shm, align_size, calc_shm_size, init_slots, shm_guard, shm_magic, shm_map_init,
  shm_map_open, copy_at, shm_map_read, shm_map_write,
}
use rhex_service.Svc.SharedMem.Slots.{
  IsMapped, align_size_bounds, copy_at_lem, copies_apart, copy_within,
}

abbrev next_index : Shm → ℕ
next_index shm = (shm.map.header.index + 1) % 2 ^ 32

module _ (size : ℕ) (small : size ≤ 2 ^ 32) where
  abbrev pub aligned : ℕ
  aligned = align_size size

  module _ (shm : Shm) (v : IsMapped size shm) (bytes : List ℕ) (fits : length bytes ≤ size) where
    -- A write copies the data to the place of the next index.
    write_parts :
        let (result, shm') = shm_map_write shm bytes (length bytes) in
        (result ≡ pos 0)
        × (shm'.map.header.index ≡ next_index shm)
        × (shm'.map.bytes ≡ memcpy shm.map.bytes (aligned * (next_index shm % 4)) bytes)
        × IsMapped size shm'
    unfolding shm_map_write
    write_parts = rw v.guarded (
      refl,
      refl,
      copied,
      record {
        guarded = refl;
        slots = v.slots;
        room = length-memcpy shm.map.bytes _ (take (length bytes) bytes) ∙ v.room;
        counted = omega arith;
      },
    )
      where
        copied :
            memcpy shm.map.bytes
              (copy_at shm.map.header (next_index shm))
              (take (length bytes) bytes)
            ≡ memcpy shm.map.bytes (aligned * (next_index shm % 4)) bytes
        copied =
            ap₂ (memcpy shm.map.bytes) (copy_at_lem size (next_index shm) shm small v)
              (take_all (length bytes) bytes (omega arith))

    -- A write of no more bytes than the segment is mapped for, at most 2^32, succeeds, the segment
    -- stays mapped, and a reader then gets a pointer to the data.
    pub read_after_write :
        let (result, shm') = shm_map_write shm bytes (length bytes) in
        (result ≡ pos 0)
        × IsMapped size shm'
        × (at : ℕ) × (shm_map_read shm' ≡ (pos 0, some at))
        × (slice shm'.map.bytes at (length bytes) ≡ bytes)
    unfolding shm_map_read
    read_after_write =
        let w = write_parts in
        let shm' = (shm_map_write shm bytes (length bytes)).1 in
        (
          w.0,
          w.3,
          copy_at shm'.map.header shm'.map.header.index,
          rw (w.3.guarded) refl,
          ap₂ (λ b i. slice b i (length bytes)) w.2
                (copy_at_lem size shm'.map.header.index shm' small w.3
                  ∙ ap (λ i. aligned * (i % 4)) w.1)
              ∙ slice-memcpy shm.map.bytes (aligned * (next_index shm % 4)) bytes (
                  omega (
                    arith,
                    v.room,
                    fits,
                    align_size_bounds size small,
                    copy_within aligned (next_index shm % 4) (omega arith),
                  )),
        )

    -- A copy that is not the next one is kept.
    write_keeps :
        (k : ℕ)
        → k ≢ next_index shm % 4
        → slice (shm_map_write shm bytes (length bytes)).1.map.bytes (aligned * k) size
          ≡ slice shm.map.bytes (aligned * k) size
    write_keeps k ne =
        ap (λ b. slice b (aligned * k) size) write_parts.2
        ∙ slice-memcpy_apart (aligned * k) size shm.map.bytes (aligned * (next_index shm % 4)) bytes
            (omega (
              arith,
              copies_apart aligned k (next_index shm % 4) ne,
              fits,
              align_size_bounds size small,
            ))

  -- Writes of some data, one after the other.
  pub write_each : List (List ℕ) → Shm → Shm
  write_each [] shm = shm
  write_each (d ∷ ds) shm = write_each ds (shm_map_write shm d (length d)).1

  write_each_keeps :
      (k t : ℕ) (ds : List (List ℕ)) (shm : Shm)
      → IsMapped size shm
      → All (λ d. length d ≤ size) ds
      → (k + t) % 4 ≡ shm.map.header.index % 4
      → k < 4
      → t + length ds ≤ 3
      → slice (write_each ds shm).map.bytes (aligned * k) size
        ≡ slice shm.map.bytes (aligned * k) size
  unfolding write_each
  write_each_keeps k t [] shm v fits at lt few = refl
  write_each_keeps k t (d ∷ ds) shm v fits at lt few =
      let w = write_parts shm v d fits.0 in
      write_each_keeps k (t + 1) ds _ w.3 fits.1 (omega (arith, w.1, at)) lt (omega (arith, few))
      ∙ write_keeps shm v d fits.0 k (omega (arith, at, few, lt))

  -- A reader's pointer keeps its data through the next three writes, whose data is no longer than
  -- the segment is mapped for, at most 2^32 bytes.
  pub snapshot_kept :
      (shm : Shm) (ds : List (List ℕ))
      → IsMapped size shm
      → All (λ d. length d ≤ size) ds
      → length ds ≤ 3
      → (at : ℕ) × (shm_map_read shm ≡ (pos 0, some at))
        × (slice (write_each ds shm).map.bytes at size ≡ slice shm.map.bytes at size)
  unfolding shm_map_read
  snapshot_kept shm ds v fits few =
      let at = copy_at_lem size shm.map.header.index shm small v in
      (
        aligned * (shm.map.header.index % 4),
        rw (v.guarded, at) refl,
        write_each_keeps (shm.map.header.index % 4) 0 ds shm v fits (omega arith) (omega arith)
            (omega arith),
      )

else_some {ℓ} :
    {A : Type ℓ} {o : Option A} {x : A} (b : Bool)
    → (if not b then none else o) ≡ some x
    → o ≡ some x
else_some true e = e
else_some false e = absurd (ground arith)

-- A segment that was made for fewer than 2^32 bytes is, once it is opened, mapped for them, and the
-- handle has their number.
pub opened-IsMapped :
    (env env' : ShmEnv) (size : ℕ) (seg : Segment) (shm : Shm)
    → size < 2 ^ 32
    → shm_map_init env size ≡ some seg
    → shm_map_open env' seg ≡ some shm
    → IsMapped size shm × (shm.size ≡ size)
unfolding shm_map_init shm_map_open calc_shm_size
opened-IsMapped env env' size seg shm small made opened =
    subst IsGood
      (some_inj (
        else_some (env'.mmap 1) (
          else_some (seg.header.magic == shm_magic)
            (else_some (env'.mmap 0) (else_some env'.shm_open opened)))))
      (subst (λ g. IsGood (handle g)) same fresh_good)
  where
    IsGood : Shm → Type 0
    IsGood t = IsMapped size t × (t.size ≡ size)

    handle : Segment → Shm
    handle g = record { guard = shm_guard; map = g; size = g.header.size }

    fresh : Segment
    fresh = record {
      header = record {
        magic = shm_magic;
        size = size % 2 ^ 32;
        copies = 4;
        index = 4294967294;
        slot = init_slots size 0 4;
      };
      bytes = replicate (calc_shm_size size 4 - 88) 0;
    }

    same : fresh ≡ seg
    same = some_inj (else_some (env.mmap 0) (else_some env.ftruncate (else_some env.shm_open made)))

    room : length {A = ℕ} (replicate (calc_shm_size size 4 - 88) 0) ≡ 4 * align_size size
    room = omega (
      arith,
      length-replicate {A = ℕ} (calc_shm_size size 4 - 88) 0,
      align_size_bounds size (omega arith),
    )

    fresh_good : IsGood (handle fresh)
    fresh_good =
        (record { guarded = refl; slots = refl; room = room; counted = omega arith }, omega arith)
