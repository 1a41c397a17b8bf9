-- ===== src/Wfb/TxRawsock/Stream/Packing.antt =====
-- Filling and finishing one packet buffer of `wfb_tx_stream`.
use rhex_service.Base.{ℕ, ◌+◌, ◌-◌, ◌%◌, ◌^◌, ◌≤◌, ◌<◌, ◌≡◌, ◌⊎◌, refl, sym, ap, ap₂, ◌∙◌}
use rhex_service.Base.{List, ◌++◌, arith}
use rhex_service.Base.{
  if◌then◌else◌, ◌==◌, length, take, drop, memcpy, le32, get_le32, length-memcpy,
}
use rhex_service.Base.{length-take, length-drop, drop-memcpy, take-memcpy, memcpy_front, le32_round}
use rhex_service.Wfb.Packet.{PacketBuffer, payload}
use rhex_service.Wfb.Handed.{IsReady}
use rhex_service.Wfb.TxRawsock.Stream.{copy_len, fill_packet, close_packet}

-- The packet buffer that is being filled: empty, or its header and less than the least length.
pub record IsPending (p : PacketBuffer) : Type 0 where
  pub short : p.len < 24
  pub begun : (p.len ≡ 0) ⊎ (4 ≤ p.len)
  pub allocated : length p.bytes ≡ 4192

module _ (pb : PacketBuffer) (v : IsPending pb) (input : List ℕ) (len offset : ℕ)
    (hl : length input ≡ len) (hb : len < 2 ^ 16) (ho : offset ≤ len) where
  abbrev start : ℕ
  start = 4 + (pb.len - 4)

  abbrev n : ℕ
  n = copy_len (len - offset) start

  n_bounds : (n ≤ len - offset) × (start + n ≤ 1024) × ((offset + n ≡ len) ⊎ (start + n ≡ 1024))
  unfolding copy_len
  n_bounds = ground arith

  chunk : List ℕ
  chunk = take n (drop offset input)

  length-chunk : length chunk ≡ n
  unfolding chunk
  length-chunk =
      omega (arith, length-take n (drop offset input), length-drop offset input, n_bounds)

  start_eq : (if pb.len == 0 then pb.len + 4 else pb.len) ≡ start
  start_eq = ground (arith, v.begun)

  no_wrap : (offset + n) % 2 ^ 16 ≡ offset + n
  no_wrap = omega (arith, n_bounds)

  fill_packet_eq :
      fill_packet pb input len offset
      ≡ (record pb { len = start + n; bytes = memcpy pb.bytes start chunk }, offset + n)
  unfolding fill_packet chunk
  fill_packet_eq = rw (start_eq, no_wrap)

  filled_payload : take (start + n - 4) (drop 4 (memcpy pb.bytes start chunk)) ≡ payload pb ++ chunk
  filled_payload =
      ap (take (start + n - 4)) (drop-memcpy 4 pb.bytes start chunk (omega arith))
      ∙ ap₂ (λ m o. take m (memcpy (drop 4 pb.bytes) o chunk)) {x = start + n - 4}
          {y = pb.len - 4 + length chunk} {u = start - 4} {v = pb.len - 4}
          (omega (arith, length-chunk)) (omega arith)
      ∙ take-memcpy (drop 4 pb.bytes) (pb.len - 4) chunk
          (omega (arith, length-drop 4 pb.bytes, length-chunk, n_bounds, v.allocated))

  -- What a round of the loop has put into the packet buffer.
  pub record IsFilled (result : PacketBuffer × ℕ) : Type 0 where
    pub stored : payload result.0 ≡ payload pb ++ take (result.1 - offset) (drop offset input)
    pub within : (offset ≤ result.1) × (result.1 ≤ len)
    pub bounds : (4 ≤ result.0.len) × (result.0.len ≤ 1024)
    pub allocated : length result.0.bytes ≡ 4192
    pub ended : (result.1 ≡ len) ⊎ ((result.0.len ≡ 1024) × (offset < result.1))

  pub fill_packet-IsFilled : IsFilled (fill_packet pb input len offset)
  unfolding chunk
  fill_packet-IsFilled = rw fill_packet_eq (record {
    stored =
        filled_payload
        ∙ ap (λ m. payload pb ++ take m (drop offset input)) {x = n} {y = offset + n - offset}
            (omega arith);
    within = (omega arith, omega (arith, n_bounds));
    bounds = (omega arith, omega (arith, n_bounds));
    allocated = length-memcpy pb.bytes start chunk ∙ v.allocated;
    ended = omega (arith, n_bounds, v.short);
  })

module _ (pb : PacketBuffer) (least : 24 ≤ pb.len) (greatest : pb.len ≤ 1024)
    (alloc : length pb.bytes ≡ 4192) where
  closed_bytes : (close_packet pb).bytes ≡ le32 (pb.len - 4) ++ drop 4 pb.bytes
  unfolding close_packet
  closed_bytes =
      ap (λ m. memcpy pb.bytes 0 (le32 m)) {x = (pb.len - 4) % 2 ^ 32} {y = pb.len - 4}
        (omega arith)
      ∙ memcpy_front pb.bytes (le32 (pb.len - 4)) (omega (arith, alloc))

  len-close_packet : (close_packet pb).len ≡ pb.len
  unfolding close_packet
  len-close_packet = refl

  -- A finished packet has its header and its bytes.
  pub close_packet-IsReady : IsReady (close_packet pb)
  close_packet-IsReady = record {
    least = omega (arith, len-close_packet);
    greatest = omega (arith, len-close_packet);
    allocated = allocated;
    header =
        ap (λ b. get_le32 b 0) closed_bytes
        ∙ le32_round (pb.len - 4) (drop 4 pb.bytes) (omega arith)
        ∙ ap (λ m. m - 4) (sym len-close_packet);
  }
    where
      allocated : length (close_packet pb).bytes ≡ 4192
      allocated =
          unfold close_packet in length-memcpy pb.bytes 0 (le32 ((pb.len - 4) % 2 ^ 32)) ∙ alloc

  pub payload-close_packet : payload (close_packet pb) ≡ payload pb
  payload-close_packet = ap₂ (λ m b. take (m - 4) (drop 4 b)) len-close_packet closed_bytes
