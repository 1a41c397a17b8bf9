-- ===== src/Tests/Rx.antt =====
-- The stream receiver on a concrete block of twelve packets that carry the same three bytes.
use rhex_service.Base.{
  ℕ, zero, suc, ◌*◌, ◌<◌, ◌≡◌, refl, sym, ap, ◌∙◌, List, [], ◌∷◌, ◌++◌, map, arith, true, false,
}
use rhex_service.Base.{
  All-replicate, length, take, take-append, get_or, replicate, length-replicate, length-append,
  take_all, le32,
}
use rhex_service.Base.Int.{negsuc}
use rhex_service.Wfb.Packet.{PacketBuffer}
use rhex_service.Wfb.RxRawsock.{Receiver, RxEnv}
use rhex_service.Wfb.RxRawsock.Decode.{sort_packets, count_missing, find_repairs, finish_sorted}
use rhex_service.Wfb.RxRawsock.Decode.Repairs.{
  Recovers, Matches, IsErasure, IsChoice, find_repairs_complete,
}
use rhex_service.Wfb.RxRawsock.Decode.Delivery.{
  delivered, block_payloads, IsPacket, finish_sorted_repaired,
}
use rhex_service.Wfb.RxRawsock.Receive.{process_payload}
use rhex_service.Wfb.RxRawsock.Receive.Steps.{receiving, packet_of}
use rhex_service.Wfb.RxRawsock.Receive.Filling.{receive_places, IsFree}
use rhex_service.Wfb.RxRawsock.Receive.Block.{IsBlock, block_delivered}
use rhex_service.Base.{some, ◌+◌, ◌*◌}
use rhex_service.Wfb.TxRawsock.Header.{ieee_header}
use rhex_service.Wfb.RxRawsock.Interface.{frame_payload}
use rhex_service.Wfb.RxRawsock.Interface.Payload.{frame_payload_lem}

-- A data packet with the stream bytes 9, 9, 9.
abbrev pub nines : List ℕ
nines = le32 3 ++ replicate 1020 9

pub length-nines : length nines ≡ 1024
length-nines =
    omega (arith, length-append (le32 3) (replicate 1020 9), length-replicate {A = ℕ} 1020 9)

-- fec_decode() of a block of these packets.
abbrev pub nines_env : RxEnv
nines_env = record {
  monotime = λ n. 1000000 * n;
  fec_decode = λ size bufs chosen nos erased. replicate 8 nines;
}

pub nines-Recovers : Recovers nines_env (replicate 8 nines) (replicate 4 nines)
nines-Recovers bufs erased nos chosen e c same =
    ap (replicate 8) (take_all 1024 nines (omega (arith, length-nines)))

get_or-replicate : (n k : ℕ) (x : List ℕ) → k < n → get_or (replicate n x) k [] ≡ x
get_or-replicate zero k x h = absurd (omega arith)
get_or-replicate (suc n) zero x h = refl
get_or-replicate (suc n) (suc k) x h = get_or-replicate n k x (omega arith)

pub nines-IsPacket : IsPacket nines
nines-IsPacket = record { whole = length-nines; header = omega arith }

nines-IsBlock : IsBlock (replicate 12 nines) (replicate 8 nines) (replicate 4 nines)
unfolding sort_packets
nines-IsBlock =
    let p = nines-IsPacket in
    record {
      twelve = refl;
      long = λ k h. ap length (get_or-replicate 12 k nines h) ∙ length-nines;
      sorted = refl;
      eight = refl;
      four = refl;
      packets = All-replicate IsPacket 8 nines p;
    }

abbrev pub free_packet : PacketBuffer
free_packet = record { valid = false; crc_correct = false; len = 0; bytes = replicate 4192 0 }

pub free_packet-IsFree : IsFree free_packet
free_packet-IsFree = record {
  invalid = refl;
  unchecked = refl;
  allocated = length-replicate {A = ℕ} 4192 0;
}

abbrev pub idle : Receiver
idle = record {
  block_buffer_list = [];
  bytes_decoded = 0;
  rx_status = record {
    received_block_cnt = 0;
    damaged_block_cnt = 0;
    lost_packet_cnt = 0;
    received_packet_cnt = 0;
    lost_per_block_cnt = 0;
    tx_restart_cnt = 0;
    kbitrate = 0;
    adapter = [];
  };
  max_block_num = negsuc 0;
  prev_time = 0;
  now = 0;
  pm_prev_time = 0;
  pm_now = 0;
  packets_missing = 0;
  packets_missing_last = 0;
  rx_data = record { bytes = 0; store = replicate 9000 0 };
  clock_reads = 0;
}

-- Eight of the packets, out of order and one of them twice.
abbrev places : List ℕ
places = 3 ∷ 0 ∷ 1 ∷ 2 ∷ 7 ∷ 3 ∷ 9 ∷ 8 ∷ 11 ∷ []

block_delivered_example :
    delivered (
      process_payload nines_env (packet_of 5 0 nines) (
        receive_places nines_env 4
          (replicate 12 nines)
          places
          (receiving 4 (replicate 12 free_packet) idle)))
    ≡ delivered idle ++ block_payloads (replicate 8 nines)
block_delivered_example =
    let f = free_packet-IsFree in
    block_delivered nines_env 4 5 0 nines (replicate 12 nines) (replicate 8 nines)
      (replicate 4 nines) places (replicate 12 free_packet) idle nines-IsBlock nines-Recovers refl
      (All-replicate IsFree 12 free_packet f) (ground arith) (omega arith)
      (omega (arith, length-replicate {A = ℕ} 9000 0)) (omega arith) (omega arith) (omega arith)

abbrev nines_packet : PacketBuffer
nines_packet = record {
  valid = true;
  crc_correct = true;
  len = 1024;
  bytes = nines ++ replicate 3168 0;
}

-- A packet that came, and one that did not.
came : Matches nines_packet nines
came = record {
  checked = refl;
  allocated = omega (
    arith,
    length-append nines (replicate 3168 0),
    length-nines,
    length-replicate {A = ℕ} 3168 0,
  );
  stored = λ v. came_bytes;
}
  where
    came_bytes : take 1024 (nines ++ replicate 3168 0) ≡ nines
    came_bytes =
        ap (λ n. take n (nines ++ replicate 3168 0)) (sym length-nines)
        ∙ take-append nines (replicate 3168 0)

lost : Matches free_packet nines
lost = record {
  checked = refl;
  allocated = length-replicate {A = ℕ} 4192 0;
  stored = λ v. ground arith;
}

find_repairs_complete_example :
    let repairs =
      find_repairs 0 (nines_packet ∷ free_packet ∷ []) 0 (nines_packet ∷ nines_packet ∷ []) in
    IsErasure 0
      (nines_packet.bytes ∷ free_packet.bytes ∷ [])
      (nines ∷ nines ∷ [])
      (map (λ r. r.erased) repairs)
    × IsChoice 0 (nines ∷ nines ∷ []) (map (λ r. r.fec_no) repairs) (map (λ r. r.fec_block) repairs)
unfolding count_missing
find_repairs_complete_example =
    find_repairs_complete 0 0 (nines_packet ∷ free_packet ∷ []) (nines_packet ∷ nines_packet ∷ [])
      (nines ∷ nines ∷ []) (nines ∷ nines ∷ []) (came, (lost, tt)) (came, (came, tt)) (omega arith)

finish_sorted_repaired_example :
    delivered (
      finish_sorted nines_env
        (nines_packet ∷ free_packet ∷ replicate 6 nines_packet)
        (free_packet ∷ replicate 3 nines_packet)
        idle)
    ≡ delivered idle ++ block_payloads (replicate 8 nines)
unfolding count_missing
finish_sorted_repaired_example =
    let c = came in
    finish_sorted_repaired nines_env (nines_packet ∷ free_packet ∷ replicate 6 nines_packet)
      (free_packet ∷ replicate 3 nines_packet) (replicate 8 nines) (replicate 4 nines) idle
      (c, (lost, (c, (c, (c, (c, (c, (c, tt)))))))) (lost, (c, (c, (c, tt)))) refl refl
      (All-replicate IsPacket 8 nines nines-IsPacket) (omega arith) nines-Recovers
      (omega (arith, length-replicate {A = ℕ} 9000 0))

abbrev radio : List ℕ
radio = 0 ∷ 0 ∷ 6 ∷ 0 ∷ 1 ∷ 2 ∷ []

abbrev ieee : List ℕ
ieee = 8 ∷ 1 ∷ 0 ∷ 0 ∷ 11 ∷ []

frame_payload_lem_example :
    let frame = radio ++ (ieee ++ (le32 (12 * 100 + 3) ++ (1 ∷ 2 ∷ []))) in
    frame_payload true 24 frame (length frame) ≡ some (5, packet_of 100 3 (1 ∷ 2 ∷ []))
unfolding ieee_header
frame_payload_lem_example =
    frame_payload_lem 24 0 5 100 3 radio ieee (1 ∷ 2 ∷ []) refl (omega arith) (omega arith) refl
