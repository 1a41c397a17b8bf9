-- ===== src/Tests/Shm.antt =====
-- A shared segment for 12 bytes.
use rhex_service.Base.{ℕ, ◌-◌, ◌≡◌, refl, [], ◌∷◌, arith, true, some, slice, replicate}
use rhex_service.Base.Int.{pos}
use rhex_service.Svc.SharedMem.{
  ShmEnv, Segment, Shm, shm_magic, shm_guard, init_slots, calc_shm_size, align_size, shm_map_init,
  shm_map_open, shm_map_read, shm_map_write,
}
use rhex_service.Svc.SharedMem.Slots.{IsMapped}
use rhex_service.Svc.SharedMem.Snapshots.{
  read_after_write, snapshot_kept, write_each, opened-IsMapped,
}

abbrev working : ShmEnv
working = record { shm_open = true; ftruncate = true; mmap = λ n. true }

abbrev segment : Segment
segment = record {
  header = record {
    magic = shm_magic;
    size = 12;
    copies = 4;
    index = 4294967294;
    slot = init_slots 12 0 4;
  };
  bytes = replicate (calc_shm_size 12 4 - 88) 0;
}

abbrev handle : Shm
handle = record { guard = shm_guard; map = segment; size = 12 }

opened-IsMapped_example : IsMapped 12 handle × (handle.size ≡ 12)
unfolding shm_map_init shm_map_open
opened-IsMapped_example = opened-IsMapped working working 12 segment handle (omega arith) refl refl

handle-IsMapped : IsMapped 12 handle
unfolding calc_shm_size align_size
handle-IsMapped = record { guarded = refl; slots = refl; room = refl; counted = omega arith }

read_after_write_example :
    let (result, shm') = shm_map_write handle (1 ∷ 2 ∷ 3 ∷ []) 3 in
    (result ≡ pos 0)
    × IsMapped 12 shm'
    × (at : ℕ) × (shm_map_read shm' ≡ (pos 0, some at))
    × (slice shm'.map.bytes at 3 ≡ 1 ∷ 2 ∷ 3 ∷ [])
read_after_write_example =
    read_after_write 12 (omega arith) handle handle-IsMapped (1 ∷ 2 ∷ 3 ∷ []) (omega arith)

snapshot_kept_example :
    (at : ℕ) × (shm_map_read handle ≡ (pos 0, some at))
    × (slice
          (write_each 12 (omega arith) ((1 ∷ []) ∷ (2 ∷ []) ∷ (3 ∷ []) ∷ []) handle).map.bytes
          at
          12
        ≡ slice handle.map.bytes at 12)
snapshot_kept_example =
    snapshot_kept 12 (omega arith) handle ((1 ∷ []) ∷ (2 ∷ []) ∷ (3 ∷ []) ∷ []) handle-IsMapped
      (omega arith, (omega arith, (omega arith, tt))) (omega arith)
