-- ===== src/Wfb/RxRawsock/Receive/Block.antt =====
-- A whole block through `process_payload`.
use rhex_service.Base.{ℕ, ◌+◌, ◌*◌, ◌^◌, ◌≤◌, ◌<◌, ◌≡◌, refl, sym, subst, ap, ◌∙◌}
use rhex_service.Base.{List, [], ◌++◌, arith, false}
use rhex_service.Base.{length, get_or, replicate, All}
use rhex_service.Wfb.Packet.{PacketBuffer}
use rhex_service.Wfb.RxRawsock.{Receiver, RxEnv}
use rhex_service.Wfb.RxRawsock.Decode.{sort_packets, count_missing, finish_packets}
use rhex_service.Wfb.RxRawsock.Decode.Repairs.{Recovers, Holds, Holds-length, sort-Holds}
use rhex_service.Wfb.RxRawsock.Decode.Delivery.{
  IsPacket, HasRoom, delivered, block_payloads, finish_sorted_repaired,
}
use rhex_service.Wfb.RxRawsock.Receive.{process_payload}
use rhex_service.Wfb.RxRawsock.Receive.Steps.{
  receiving, packet_of, process_numbered_next, process_payload_numbered,
}
use rhex_service.Wfb.RxRawsock.Receive.Filling.{
  receive_places, seen, count_false, missing_places, valid_flags, IsFilling,
  receive_places-IsFilling, IsFree, free-Holds, count_missing_flags, count_missing-sort,
}

-- The twelve packets of a block: eight data packets and four FEC packets in turn.
pub record IsBlock (pkts blocks fecs : List (List ℕ)) : Type 0 where
  pub twelve : length pkts ≡ 12
  pub long : (k : ℕ) → k < 12 → length (get_or pkts k []) ≡ 1024
  pub sorted : sort_packets 8 4 pkts ≡ (blocks, fecs)
  pub eight : length blocks ≡ 8
  pub four : length fecs ≡ 4
  pub packets : All IsPacket blocks

-- A receiver with free buffers for a block that gets packets of it in any order, some perhaps
-- repeatedly, so that at most four of the twelve are missing, and then a packet of a later block,
-- has delivered the stream bytes of the eight data packets in order, provided that fec_decode()
-- restores this block, that there is room for 8192 bytes and that the sequence numbers fit 32 bits.
pub block_delivered :
    (env : RxEnv) (b b' k' : ℕ) (x' : List ℕ) (pkts blocks fecs : List (List ℕ)) (ks : List ℕ)
    (pbl : List PacketBuffer) (rx : Receiver)
    → IsBlock pkts blocks fecs
    → Recovers env blocks fecs
    → length pbl ≡ 12
    → All IsFree pbl
    → All (λ k. k < 12) ks
    → missing_places ks ≤ 4
    → HasRoom 8192 rx
    → b < b'
    → k' < 12
    → 12 * b' + 12 ≤ 2 ^ 32
    → delivered (
        process_payload env
          (packet_of b' k' x')
          (receive_places env b pkts ks (receiving b pbl rx)))
      ≡ delivered rx ++ block_payloads blocks
block_delivered env b b' k' x' pkts blocks fecs ks pbl rx blk recovers twelve free small missing
      room later place fits =
    ap (λ r. delivered (process_payload env (packet_of b' k' x') r)) filled.1
    ∙ ap delivered (
        process_payload_numbered env b' k' x' (receiving b filled.0 rx) place (omega arith)
        ∙ process_numbered_next env b b' k' (packet_of b' k' x') filled.0 rx later (omega arith)
            refl)
    ∙ finished
  where
    start : Holds pbl pkts × (valid_flags pbl ≡ replicate 12 false)
    start =
        let h = free-Holds pbl pkts free (twelve ∙ sym blk.twelve) in
        (h.0, h.1 ∙ ap (λ n. replicate n false) blk.twelve)

    filled :
        (pbl' : List PacketBuffer) × (receive_places env b pkts ks (receiving b pbl rx)
          ≡ receiving b pbl' rx)
        × IsFilling env b pkts blk.twelve blk.long (omega arith) pbl' (seen ks (replicate 12 false))
    filled =
        receive_places-IsFilling env b pkts blk.twelve blk.long (omega arith) ks pbl
          (replicate 12 false) rx small (record { holds = start.0; arrived = start.1 })

    sorted : Holds (sort_packets 8 4 filled.0).0 blocks × Holds (sort_packets 8 4 filled.0).1 fecs
    sorted =
        let h = sort-Holds 8 4 filled.0 pkts filled.2.holds in
        (
          subst (λ t. Holds (sort_packets 8 4 filled.0).0 t.0) blk.sorted h.0,
          subst (λ t. Holds (sort_packets 8 4 filled.0).1 t.1) blk.sorted h.1,
        )

    few :
        count_missing (sort_packets 8 4 filled.0).0 + count_missing (sort_packets 8 4 filled.0).1
        ≤ 4
    few = omega (
      arith,
      count_missing-sort 8 4 filled.0
          (omega (arith, Holds-length filled.0 pkts filled.2.holds, blk.twelve)),
      count_missing_flags filled.0,
      ap count_false filled.2.arrived,
      missing,
    )

    finished :
        delivered (finish_packets env filled.0 (receiving b filled.0 rx))
        ≡ delivered rx ++ block_payloads blocks
    finished =
        unfold finish_packets in
        finish_sorted_repaired env (sort_packets 8 4 filled.0).0 (sort_packets 8 4 filled.0).1
          blocks fecs (receiving b filled.0 rx) sorted.0 sorted.1 blk.eight blk.four blk.packets few
          recovers room
