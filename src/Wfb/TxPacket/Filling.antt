-- ===== src/Wfb/TxPacket/Filling.antt =====
-- One packet in one packet buffer of `wfb_write`.
use rhex_service.Base.{
  ℕ, ◌+◌, ◌-◌, ◌≤◌, ◌≡◌, refl, sym, ap, ◌∙◌, List, ◌++◌, arith, true, Bool-cases, inl, inr,
}
use rhex_service.Base.{
  if◌then◌else◌, if_intro, ltb, length, take, memcpy, replicate, length-memcpy, take-memcpy,
  take-memcpy_before, take-take, take_all, append_assoc, length-take, length-replicate,
}
use rhex_service.Wfb.TxPacket.{Card, fill_card, frame_of, init_card}

-- A packet buffer of its 402 bytes, with the header `pre` in front.
pub record IsHeaded (pre : List ℕ) (card : Card) : Type 0 where
  pub allocated : length card.packet_buffer ≡ 402
  pub short : card.headers_len ≤ 40
  pub in_front : take card.headers_len card.packet_buffer ≡ pre

module _ (least : ℕ) (header bytes : List ℕ) (len : ℕ) (card : Card) (padlen offset : ℕ)
    (pre : List ℕ) (six : length header ≡ 6) (whole : length bytes ≡ len) (fits : len ≤ 338)
    (v : IsHeaded pre card) where
  abbrev result : Card × ℕ × ℕ
  result = fill_card least true header bytes len card padlen offset

  abbrev h : ℕ
  h = card.headers_len

  with_header : List ℕ
  with_header = memcpy card.packet_buffer h header

  with_data : List ℕ
  with_data = memcpy with_header (h + 6) (take len bytes)

  -- The prefix of the buffer behind which the padding goes.
  filled : take (h + 6 + len) with_data ≡ pre ++ (header ++ bytes)
  unfolding with_data with_header
  filled =
      ap (λ b. take (h + 6 + len) (memcpy with_header (h + 6) b))
        (take_all len bytes (omega (arith, whole)))
      ∙ ap (λ n. take (h + 6 + n) (memcpy with_header (h + 6) bytes)) (sym whole)
      ∙ take-memcpy with_header (h + 6) bytes (
          omega
            (arith, whole, fits, v.short, v.allocated, length-memcpy card.packet_buffer h header))
      ∙ ap (λ n. take (h + n) with_header ++ bytes) (sym six)
      ∙ ap (λ b. b ++ bytes)
          (take-memcpy card.packet_buffer h header (omega (arith, six, v.short, v.allocated)))
      ∙ append_assoc (take h card.packet_buffer) header bytes
      ∙ ap (λ p. p ++ (header ++ bytes)) v.in_front

  kept : (k : ℕ) → k ≤ h + 6 + len → take k result.0.packet_buffer ≡ take k with_data
  unfolding fill_card with_data with_header
  kept k le = elim (Bool-cases (ltb len least)) [
    | inl short ↦
        rw short (take-memcpy_before k with_data (h + 6 + len) (replicate (least - len) 221) le)
    | inr long ↦ rw long refl
  ]

  same_len : result.0.headers_len ≡ h
  unfolding fill_card
  same_len = refl

  pub same_offset : result.2 ≡ 6
  unfolding fill_card
  same_offset = refl

  same_size : length result.0.packet_buffer ≡ 402
  unfolding fill_card
  same_size =
      if_intro {A = List ℕ} (λ b. length b ≡ 402) (ltb len least)
        (length-memcpy _ (h + 6 + len)
            (replicate (if ltb len least then least - len else padlen) 221)
          ∙ size_data)
        size_data
    where
      size_data :
          length (memcpy (memcpy card.packet_buffer h header) (h + 6) (take len bytes)) ≡ 402
      size_data =
          length-memcpy _ (h + 6) (take len bytes)
          ∙ length-memcpy card.packet_buffer h header
          ∙ v.allocated

  front_kept : take h with_data ≡ take h card.packet_buffer
  unfolding with_data with_header
  front_kept =
      take-memcpy_before h with_header (h + 6) (take len bytes) (omega arith)
      ∙ take-memcpy_before h card.packet_buffer h header (omega arith)

  pub fill_card-IsHeaded : IsHeaded pre result.0
  fill_card-IsHeaded = record {
    allocated = same_size;
    short = omega (arith, same_len, v.short);
    in_front =
        ap (λ n. take n result.0.packet_buffer) same_len
        ∙ kept h (omega arith)
        ∙ front_kept
        ∙ v.in_front;
  }

  -- What is written of the buffer begins with the header, the sequence number and the data.
  pub take-frame_of :
      take (length pre + 6 + len) (frame_of result.0 result.2 len result.1)
      ≡ pre ++ (header ++ bytes)
  take-frame_of =
      ap (λ n. take n (frame_of result.0 result.2 len result.1)) {x = length pre + 6 + len}
        {y = h + 6 + len} (omega (arith, length-pre))
      ∙ take-take (h + 6 + len) (result.0.headers_len + result.2 + len + result.1)
          result.0.packet_buffer (omega (arith, same_len, same_offset))
      ∙ kept (h + 6 + len) (omega arith)
      ∙ filled
    where
      length-pre : length pre ≡ h
      length-pre = omega (
        arith,
        ap length v.in_front,
        length-take card.headers_len card.packet_buffer,
        v.short,
        v.allocated,
      )

  pub padding_bound : least ≤ 18 → padlen ≤ 18 → result.1 ≤ 18
  unfolding fill_card
  padding_bound small before = ground arith

-- The packet buffer that `wfb_tx_init` leaves.
pub init_card-IsHeaded :
    (headers : List ℕ) → length headers ≤ 40 → IsHeaded headers (init_card headers)
init_card-IsHeaded headers short = record {
  allocated = length-memcpy (replicate 402 0) 0 headers ∙ length-replicate {A = ℕ} 402 0;
  short = short;
  in_front =
      ap (λ n. take n (memcpy (replicate 402 0) 0 headers)) {x = length headers}
        {y = 0 + length headers} (omega arith)
      ∙ take-memcpy (replicate 402 0) 0 headers
          (omega (arith, length-replicate {A = ℕ} 402 0, short));
}
