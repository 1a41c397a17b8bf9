-- ===== src/Wfb/RxRawsock/Receive/Steps.antt =====
-- One packet of `process_payload`, for a receiver that is in the middle of a block.
use rhex_service.Base.{ℕ, ◌+◌, ◌-◌, ◌*◌, ◌^◌, ◌<◌, ◌≡◌, refl, ap, ap₂, ◌∙◌}
use rhex_service.Base.{List, [], ◌∷◌, ◌++◌, map, arith, Bool, true, not, ◌||◌, if_intro}
use rhex_service.Base.{length, get_or, set, le32, le32_round}
use rhex_service.Base.Int.{pos}
use rhex_service.Wfb.Packet.{PacketBuffer}
use rhex_service.Wfb.RxRawsock.{PayloadData, Receiver, RxEnv}
use rhex_service.Wfb.RxRawsock.Decode.{
  count_rate, append_rx_data, count_lost, count_block, deliver, finish_sorted, finish_packets,
  delivered_len,
}
use rhex_service.Wfb.RxRawsock.Receive.{
  no_packet, reset_packet, replace_block, find_block, find_min, set_block, store_packet,
  store_in_block, put_in_place, make_room, process_numbered, process_payload,
}

-- A receiver with one block buffer, that is filled with the block `b`.
abbrev pub receiving : ℕ → List PacketBuffer → Receiver → Receiver
receiving b pbl rx = record rx {
  block_buffer_list = record { block_num = pos b; packet_buffer_list = pbl } ∷ [];
  max_block_num = pos b;
}

-- What arrives of the packet `x` in the place `k` of the block `b`.
abbrev pub packet_of : ℕ → ℕ → List ℕ → PayloadData
packet_of b k x = record { bytes = le32 (12 * b + k) ++ x; size = 4 + length x; crc_ok = true }

abbrev pub stored_at : PayloadData → ℕ → List PacketBuffer → List PacketBuffer
stored_at pd k pbl = set pbl k (store_packet pd (get_or pbl k no_packet))

module _ (env : RxEnv) where
  buffers-count_rate :
      (n : ℕ) (rx : Receiver) → (count_rate env n rx).block_buffer_list ≡ rx.block_buffer_list
  unfolding count_rate
  buffers-count_rate n rx = ground arith

  buffers-count_block :
      (n m : ℕ) (rx : Receiver) → (count_block env n m rx).block_buffer_list ≡ rx.block_buffer_list
  unfolding count_block count_lost
  buffers-count_block n m rx = ground arith

  buffers-deliver :
      (failed : Bool) (ps : List PacketBuffer) (bs : List (List ℕ)) (rx : Receiver)
      → (deliver env failed ps bs rx).block_buffer_list ≡ rx.block_buffer_list
  unfolding deliver
  buffers-deliver failed [] bs rx = refl
  buffers-deliver failed (p ∷ ps) [] rx = refl
  buffers-deliver failed (p ∷ ps) (b ∷ bs) rx =
      buffers-deliver failed ps bs _
      ∙ if_intro {A = Receiver} (λ r. r.block_buffer_list ≡ rx.block_buffer_list)
          (not failed || p.valid)
          (buffers-count_rate (delivered_len b) (append_rx_data b (delivered_len b) rx)
            ∙ unfold append_rx_data in refl)
          refl

  buffers-finish_packets :
      (pbl : List PacketBuffer) (rx : Receiver)
      → (finish_packets env pbl rx).block_buffer_list ≡ rx.block_buffer_list
  unfolding finish_packets finish_sorted
  buffers-finish_packets pbl rx = buffers-deliver _ _ _ _ ∙ buffers-count_block _ _ rx

  put_in_place-receiving :
      (b k : ℕ) (pd : PayloadData) (pbl : List PacketBuffer) (rx : Receiver)
      → put_in_place b k pd (receiving b pbl rx) ≡ receiving b (stored_at pd k pbl) rx
  unfolding put_in_place find_block set_block store_in_block
  put_in_place-receiving b k pd pbl rx = ground arith

  make_room_same :
      (b : ℕ) (pd : PayloadData) (pbl : List PacketBuffer) (rx : Receiver)
      → make_room env b pd (receiving b pbl rx) ≡ receiving b pbl rx
  unfolding make_room
  make_room_same b pd pbl rx = ground arith

  replace_block-receiving :
      (b b' : ℕ) (pbl : List PacketBuffer) (rx : Receiver)
      → b < 2 ^ 31 - 1
      → replace_block env b' (receiving b pbl rx)
        ≡ receiving b' (map reset_packet pbl) (finish_packets env pbl (receiving b pbl rx))
  unfolding replace_block find_min set_block
  replace_block-receiving b b' pbl rx small =
      ground (arith, buffers-finish_packets pbl (receiving b pbl rx))

  make_room_next :
      (b b' : ℕ) (pd : PayloadData) (pbl : List PacketBuffer) (rx : Receiver)
      → b < b'
      → pd.crc_ok ≡ true
      → make_room env b' pd (receiving b pbl rx) ≡ replace_block env b' (receiving b pbl rx)
  unfolding make_room
  make_room_next b b' pd pbl rx lt ok = ground arith

  -- A packet of the current block is stored, and changes nothing else.
  pub process_numbered_same :
      (b k : ℕ) (pd : PayloadData) (pbl : List PacketBuffer) (rx : Receiver)
      → process_numbered env b k pd (receiving b pbl rx) ≡ receiving b (stored_at pd k pbl) rx
  unfolding process_numbered
  process_numbered_same b k pd pbl rx =
      ap (put_in_place b k pd) (make_room_same b pd pbl rx) ∙ put_in_place-receiving b k pd pbl rx

  -- A packet of a later block finishes the current one first; the buffers are reset for its block.
  pub process_numbered_next :
      (b b' k : ℕ) (pd : PayloadData) (pbl : List PacketBuffer) (rx : Receiver)
      → b < b'
      → b < 2 ^ 31 - 1
      → pd.crc_ok ≡ true
      → process_numbered env b' k pd (receiving b pbl rx)
        ≡ receiving b'
            (stored_at pd k (map reset_packet pbl))
            (finish_packets env pbl (receiving b pbl rx))
  unfolding process_numbered
  process_numbered_next b b' k pd pbl rx lt small ok =
      ap (put_in_place b' k pd)
        (make_room_next b b' pd pbl rx lt ok ∙ replace_block-receiving b b' pbl rx small)
      ∙ put_in_place-receiving b' k pd (map reset_packet pbl)
          (finish_packets env pbl (receiving b pbl rx))

  -- The block and the place are read off the sequence number.
  pub process_payload_numbered :
      (b k : ℕ) (x : List ℕ) (rx : Receiver)
      → k < 12
      → 12 * b + k < 2 ^ 32
      → process_payload env (packet_of b k x) rx ≡ process_numbered env b k (packet_of b k x) rx
  unfolding process_payload
  process_payload_numbered b k x rx small fits =
      ap₂ (λ m n. process_numbered env m n (packet_of b k x) rx)
        (omega (arith, le32_round (12 * b + k) x fits))
        (omega (arith, le32_round (12 * b + k) x fits))
