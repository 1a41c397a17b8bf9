-- ===== src/Svc/SharedMem.antt =====
-- libsvc/sharedmem.c: a segment with four copies of the data, written in turn.
pub mod Slots
pub mod Snapshots
use rhex_service.Base.{
  ℕ, zero, suc, ◌+◌, ◌-◌, ◌*◌, ◌/◌, ◌%◌, ◌^◌, List, [], ◌∷◌, Bool, true, false, Option, none, some,
}
use rhex_service.Base.{if◌then◌else◌, ◌==◌, not, length, take, get_or, memcpy, replicate}
use rhex_service.Base.Int.{ℤ, pos, negsuc}

abbrev pub shm_copies : ℕ
shm_copies = 4

abbrev pub shm_magic : ℕ
shm_magic = 6001131575033549889

abbrev pub shm_guard : ℕ
shm_guard = 6001131472239546948

abbrev pub shm_start_idx : ℕ
shm_start_idx = 4294967294

-- shm_slot_t
pub record ShmSlot : Type 0 where
  pub index : ℕ
  pub size : ℕ
  pub offset : ℕ

-- shm_header_t
pub record ShmHeader : Type 0 where
  pub magic : ℕ
  pub size : ℕ
  pub copies : ℕ
  pub index : ℕ
  pub slot : List ShmSlot

-- The segment: its header and the bytes behind it.
pub record Segment : Type 0 where
  pub header : ShmHeader
  pub bytes : List ℕ

-- shm_t; `map` is what the pointer points to.
pub record Shm : Type 0 where
  pub guard : ℕ
  pub map : Segment
  pub size : ℕ

abbrev pub no_slot : ShmSlot
no_slot = record { index = 0; size = 0; offset = 0 }

-- `(size + 7) & ~7` in 64 bits
unfoldable pub align_size : ℕ → ℕ
align_size size = (size + 7) % 2 ^ 64 / 8 * 8

-- sizeof(shm_header_t) is 88.
unfoldable pub calc_shm_size : ℕ → ℕ → ℕ
calc_shm_size copy_size copies = (align_size copy_size * copies % 2 ^ 64 + 88) % 2 ^ 64

-- The slots from the number `i` on.
unfoldable pub init_slots : ℕ → ℕ → ℕ → List ShmSlot
init_slots size i zero = []
init_slots size i (suc n) =
    record { index = shm_start_idx; size = 0; offset = align_size size * i % 2 ^ 64 }
    ∷ init_slots size (i + 1) n

-- What the system answers while a segment is made or opened: whether shm_open(), ftruncate() and
-- the n-th mmap() succeed.
pub record ShmEnv : Type 0 where
  pub shm_open : Bool
  pub ftruncate : Bool
  pub mmap : ℕ → Bool

-- The segment, for the result `true`; ftruncate() fills it with zeros.
unfoldable pub shm_map_init : ShmEnv → ℕ → Option Segment
shm_map_init env size =
    if not env.shm_open
    then none
    else if not env.ftruncate
    then none
    else if not (env.mmap 0)
    then none
    else some (record {
      header = record {
        magic = shm_magic;
        size = size % 2 ^ 32;
        copies = shm_copies;
        index = shm_start_idx;
        slot = init_slots size 0 shm_copies;
      };
      bytes = replicate (calc_shm_size size shm_copies - 88) 0;
    })

-- The handle, for the result `true`; `seg` is the segment of the name, if there is one.
unfoldable pub shm_map_open : ShmEnv → Segment → Option Shm
shm_map_open env seg =
    if not env.shm_open
    then none
    else if not (env.mmap 0)
    then none
    else if not (seg.header.magic == shm_magic)
    then none
    else if not (env.mmap 1)
    then none
    else some (record { guard = shm_guard; map = seg; size = seg.header.size })

-- The place behind the header where the copy of an index begins: words of eight bytes.
abbrev pub copy_at : ShmHeader → ℕ → ℕ
copy_at hdr index = 8 * ((get_or hdr.slot (index % shm_copies) no_slot).offset / 8)

-- The result, and the pointer that is set if it is 0.
unfoldable pub shm_map_read : Shm → ℤ × Option ℕ
shm_map_read shm =
    if not (shm.guard == shm_guard)
    then (negsuc 0, none)
    else (pos 0, some (copy_at shm.map.header shm.map.header.index))

unfoldable pub shm_map_write : Shm → List ℕ → ℕ → ℤ × Shm
shm_map_write shm bytes size =
    let seg : Segment = shm.map in
    let hdr : ShmHeader = seg.header in
    let index : ℕ = (hdr.index + 1) % 2 ^ 32 in
    if not (shm.guard == shm_guard) then (negsuc 0, shm) else (
      pos 0,
      record shm {
        map = record {
          header = record hdr { index = index };
          bytes = memcpy seg.bytes (copy_at hdr index) (take size bytes);
        };
      },
    )
