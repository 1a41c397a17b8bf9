-- ===== src/Wfb/Handed.antt =====
-- What the frames of a stream that were handed to write() carry, read off the frames alone: the sequence number behind the
-- radio header, the block packet behind it, and the stream bytes that a data packet holds.
use rhex_service.Base.{ℕ, ◌+◌, ◌-◌, ◌%◌, ◌^◌, ◌≤◌, ◌<◌, ◌≡◌, refl, sym, ap, ◌∙◌}
use rhex_service.Base.{List, [], ◌∷◌, ◌++◌, append-nil, append_assoc, Bool, true, false, arith}
use rhex_service.Base.{ltb, ◌==◌, if◌then◌else◌, length, take, drop, slice, le32, get_le32}
use rhex_service.Base.{get_or-take, drop-take, take-take, le32_round, drop-append}
use rhex_service.Wfb.Packet.{PacketBuffer, payload}
use rhex_service.Wfb.Io.{Frame}

-- The place of a packet in its block of 12: DATA and FEC in turn, then the rest of the DATA.
abbrev pub is_data_place : ℕ → Bool
is_data_place k = if ltb k 8 then (k % 2) == 0 else true

-- The stream bytes of a data packet: as many as its payload header says.
abbrev pub block_payload : List ℕ → List ℕ
block_payload block = slice block 4 (get_le32 block 0)

module _ (phdr_len : ℕ) where
  abbrev pub frame_seq : List ℕ → ℕ
  frame_seq bytes = get_le32 (drop phdr_len bytes) 0

  abbrev pub frame_block : List ℕ → List ℕ
  frame_block bytes = drop 4 (drop phdr_len bytes)

  pub handed_payload : List ℕ → List ℕ
  handed_payload bytes =
      if is_data_place (frame_seq bytes % 12) then block_payload (frame_block bytes) else []

  -- The stream bytes handed over: those of every data frame, in order.
  unfoldable pub handed : List Frame → List ℕ
  handed [] = []
  handed (f ∷ fs) = handed_payload f.bytes ++ handed fs

  pub handed-append : (fs gs : List Frame) → handed (fs ++ gs) ≡ handed fs ++ handed gs
  unfolding handed
  handed-append [] gs = refl
  handed-append (f ∷ fs) gs =
      ap (λ r. handed_payload f.bytes ++ r) (handed-append fs gs)
      ∙ sym (append_assoc (handed_payload f.bytes) (handed fs) (handed gs))

  pub handed_one :
      (k : ℕ) (bytes : List ℕ)
      → handed (record { sock = k; bytes = bytes } ∷ []) ≡ handed_payload bytes
  unfolding handed
  handed_one k bytes = append-nil (handed_payload bytes)

  module _ (hdr : List ℕ) (n : ℕ) (block : List ℕ) (hh : length hdr ≡ phdr_len)
      (hn : n < 2 ^ 32) where
    drop_header : drop phdr_len (hdr ++ (le32 n ++ block)) ≡ le32 n ++ block
    drop_header =
        ap (λ m. drop m (hdr ++ (le32 n ++ block))) (sym hh) ∙ drop-append hdr (le32 n ++ block)

    -- The payload of a data frame, and of an FEC frame.
    pub handed_payload_data :
        is_data_place (n % 12) ≡ true
        → handed_payload (hdr ++ (le32 n ++ block)) ≡ block_payload block
    unfolding handed_payload
    handed_payload_data place = rw (drop_header, le32_round n block hn, place)

    pub handed_payload_fec :
        is_data_place (n % 12) ≡ false → handed_payload (hdr ++ (le32 n ++ block)) ≡ []
    unfolding handed_payload
    handed_payload_fec place = rw (drop_header, le32_round n block hn, place)

-- A finished packet buffer: between the least and the greatest length, with its payload header.
pub record IsReady (p : PacketBuffer) : Type 0 where
  pub least : 24 ≤ p.len
  pub greatest : p.len ≤ 1024
  pub allocated : length p.bytes ≡ 4192
  pub header : get_le32 p.bytes 0 ≡ p.len - 4

pub get_le32-take : (n : ℕ) (xs : List ℕ) → 4 ≤ n → get_le32 (take n xs) 0 ≡ get_le32 xs 0
get_le32-take n xs h = rw (
  get_or-take n xs 0 0 (omega arith),
  get_or-take n xs (0 + 1) 0 (omega arith),
  get_or-take n xs (0 + 2) 0 (omega arith),
  get_or-take n xs (0 + 3) 0 (omega arith),
)

-- What is sent of a finished packet buffer holds its payload.
pub block_payload-IsReady :
    (p : PacketBuffer) → IsReady p → block_payload (take 1024 p.bytes) ≡ payload p
block_payload-IsReady p v =
    ap (slice (take 1024 p.bytes) 4) (get_le32-take 1024 p.bytes (omega arith) ∙ v.header)
    ∙ ap (take (p.len - 4)) (drop-take 4 1024 p.bytes)
    ∙ take-take (p.len - 4) (1024 - 4) (drop 4 p.bytes) (omega arith)
