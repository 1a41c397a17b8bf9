-- ===== src/Wfb/RxRawsock/Decode/Delivery.antt =====
-- What `finish_packets` delivers: the stream bytes of a block.
use rhex_service.Base.{ℕ, ◌+◌, ◌-◌, ◌*◌, ◌≤◌, ◌≡◌, sym, ap, ◌∙◌}
use rhex_service.Base.{List, [], ◌∷◌, ◌++◌, map, append-nil, append_assoc, arith, false}
use rhex_service.Base.{length, take, drop, slice, get_le32, All, memcpy, ltb, le→ltb, if_intro}
use rhex_service.Base.{
  length-map, length-take, length-drop, length-memcpy, take-memcpy, drop-take, take-take,
}
use rhex_service.Wfb.Packet.{PacketBuffer}
use rhex_service.Wfb.Handed.{block_payload, get_le32-take}
use rhex_service.Wfb.RxRawsock.{Receiver, RxEnv}
use rhex_service.Wfb.RxRawsock.Decode.{
  count_missing, Repair, find_repairs, count_lost, count_rate, count_block, delivered_len,
  append_rx_data, deliver, finish_sorted,
}
use rhex_service.Wfb.RxRawsock.Decode.Repairs.{
  Recovers, IsErasure, IsChoice, Holds, Holds-length, find_repairs_complete,
}

-- The stream bytes that a receiver has delivered in its stream packet.
abbrev pub delivered : Receiver → List ℕ
delivered rx = take rx.rx_data.bytes rx.rx_data.store

-- The stream packet has room for `n` more bytes.
abbrev pub HasRoom : ℕ → Receiver → Type 0
HasRoom n rx = rx.rx_data.bytes + n ≤ length rx.rx_data.store

-- A data packet as a sender makes it: its payload header is within the packet.
pub record IsPacket (x : List ℕ) : Type 0 where
  pub whole : length x ≡ 1024
  pub header : get_le32 x 0 ≤ 1020

-- The stream bytes of a list of data packets.
abbrev pub block_payloads : List (List ℕ) → List ℕ
block_payloads [] = []
block_payloads (x ∷ xs) = block_payload x ++ block_payloads xs

module _ (env : RxEnv) where
  rx_data-count_rate : (n : ℕ) (rx : Receiver) → (count_rate env n rx).rx_data ≡ rx.rx_data
  unfolding count_rate
  rx_data-count_rate n rx = ground arith

  rx_data-count_lost : (n : ℕ) (rx : Receiver) → (count_lost env n rx).rx_data ≡ rx.rx_data
  unfolding count_lost
  rx_data-count_lost n rx = ground arith

  -- One packet delivered: its payload behind what is there.
  module _ (b x : List ℕ) (rx : Receiver) (same : take 1024 b ≡ x) (v : IsPacket x) where
    header_same : get_le32 x 0 ≡ get_le32 b 0
    header_same = ap (λ t. get_le32 t 0) (sym same) ∙ get_le32-take 1024 b (omega arith)

    len_eq : delivered_len b ≡ get_le32 b 0
    unfolding delivered_len
    len_eq = rw (le→ltb 1024 (get_le32 b 0) (omega (arith, header_same, v.header)))

    -- What is copied is the packet's payload.
    copied : slice b 4 (delivered_len b) ≡ block_payload x
    copied =
        ap (slice b 4) (len_eq ∙ sym header_same)
        ∙ sym (take-take (get_le32 x 0) (1024 - 4) (drop 4 b) (omega (arith, v.header)))
        ∙ ap (take (get_le32 x 0)) (sym (drop-take 4 1024 b) ∙ ap (drop 4) same)

    length_copied : length (slice b 4 (delivered_len b)) ≡ delivered_len b
    length_copied =
        ap length copied
        ∙ omega (
          arith,
          length-take (get_le32 x 0) (drop 4 x),
          length-drop 4 x,
          v.whole,
          v.header,
          len_eq,
          header_same,
        )

    bound : delivered_len b ≤ 1024
    bound = omega (arith, len_eq, header_same, v.header)

    -- The packet's bytes are put behind those that are there.
    pub append_rx_data_lem :
        (n : ℕ)
        → HasRoom (1024 + n) rx
        → let rx' = count_rate env (delivered_len b) (append_rx_data b (delivered_len b) rx) in
          (delivered rx' ≡ delivered rx ++ block_payload x) × HasRoom n rx'
    append_rx_data_lem n room =
        rw (rx_data-count_rate (delivered_len b) (append_rx_data b (delivered_len b) rx))
          (appended, roomy)
      where
        appended :
            delivered (append_rx_data b (delivered_len b) rx) ≡ delivered rx ++ block_payload x
        appended =
            unfold append_rx_data in
            ap
              (λ m.
                take (rx.rx_data.bytes + m)
                  (memcpy rx.rx_data.store rx.rx_data.bytes (slice b 4 (delivered_len b))))
              (sym length_copied)
            ∙ take-memcpy rx.rx_data.store rx.rx_data.bytes (slice b 4 (delivered_len b))
                (omega (arith, length_copied, bound, room))
            ∙ ap (λ r. delivered rx ++ r) copied

        roomy : HasRoom n (append_rx_data b (delivered_len b) rx)
        roomy =
            unfold append_rx_data in
            omega (
              arith,
              length-memcpy rx.rx_data.store rx.rx_data.bytes (slice b 4 (delivered_len b)),
              bound,
              room,
            )

  -- A repaired block: the payloads of its data packets are delivered, in order.
  pub deliver-All :
      (ps : List PacketBuffer) (bs xs : List (List ℕ)) (rx : Receiver)
      → length ps ≡ length xs
      → map (take 1024) bs ≡ xs
      → All IsPacket xs
      → HasRoom (1024 * length xs) rx
      → delivered (deliver env false ps bs rx) ≡ delivered rx ++ block_payloads xs
  unfolding deliver
  deliver-All [] bs [] rx e m v room = sym (append-nil (delivered rx))
  deliver-All [] bs (x ∷ xs) rx e m v room = absurd (omega arith)
  deliver-All (p ∷ ps) bs [] rx e m v room = absurd (omega arith)
  deliver-All (p ∷ ps) [] (x ∷ xs) rx e m v room = absurd (omega (arith, ap length m))
  deliver-All (p ∷ ps) (b ∷ bs) (x ∷ xs) rx e m v room =
      let one = append_rx_data_lem b x rx (ground arith) v.0 (1024 * length xs) (omega arith) in
      deliver-All ps bs xs _ (omega arith) (ground arith) v.1 one.1
      ∙ ap (λ r. r ++ block_payloads xs) one.0
      ∙ append_assoc (delivered rx) (block_payload x) (block_payloads xs)

  rx_data-count_block : (n m : ℕ) (rx : Receiver) → (count_block env n m rx).rx_data ≡ rx.rx_data
  unfolding count_block
  rx_data-count_block n m rx =
      if_intro {A = Receiver} (λ r. r.rx_data ≡ rx.rx_data) (ltb (4 - m) n)
        (rx_data-count_lost (n + m) _) (rx_data-count_lost (n + m) _)

  -- Eight data packets and four FEC packets of which at most four are missing are delivered whole:
  -- the stream bytes of the data packets in order are behind what was delivered, provided that
  -- fec_decode() restores this block and that there is room for 8192 bytes.
  pub finish_sorted_repaired :
      (ps qs : List PacketBuffer) (blocks fecs : List (List ℕ)) (rx : Receiver)
      → Holds ps blocks
      → Holds qs fecs
      → length blocks ≡ 8
      → length fecs ≡ 4
      → All IsPacket blocks
      → count_missing ps + count_missing qs ≤ 4
      → Recovers env blocks fecs
      → HasRoom 8192 rx
      → delivered (finish_sorted env ps qs rx) ≡ delivered rx ++ block_payloads blocks
  unfolding finish_sorted
  finish_sorted_repaired ps qs blocks fecs rx hp hq eight four packets missing recovers room =
      rw (le→ltb (4 - count_missing qs) (count_missing ps) (omega arith)) (
        deliver-All ps _ blocks (count_block env (count_missing ps) (count_missing qs) rx)
          (Holds-length ps blocks hp)
          (recovers (map (λ p. p.bytes) ps) (map (λ r. r.erased) repairs)
            (map (λ r. r.fec_no) repairs) (map (λ r. r.fec_block) repairs) complete.0 complete.1
            (length-map (λ (r : Repair). r.erased) repairs
              ∙ sym (length-map (λ (r : Repair). r.fec_no) repairs)))
          packets roomy
        ∙ ap (λ r. take r.bytes r.store ++ block_payloads blocks)
            (rx_data-count_block (count_missing ps) (count_missing qs) rx))
    where
      repairs : List Repair
      repairs = find_repairs 0 ps 0 qs

      complete :
          IsErasure 0 (map (λ p. p.bytes) ps) blocks (map (λ r. r.erased) repairs)
          × IsChoice 0 fecs (map (λ r. r.fec_no) repairs) (map (λ r. r.fec_block) repairs)
      complete =
          find_repairs_complete 0 0 ps qs blocks fecs hp hq (omega (arith, Holds-length qs fecs hq))

      roomy :
          HasRoom (1024 * length blocks) (count_block env (count_missing ps) (count_missing qs) rx)
      roomy = rw (rx_data-count_block (count_missing ps) (count_missing qs) rx, eight) room
