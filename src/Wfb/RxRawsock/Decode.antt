-- ===== src/Wfb/RxRawsock/Decode.antt =====
-- A finished block in `process_payload`: its packets sorted and counted, repaired and delivered.
-- What fec_decode() leaves in the packet buffers themselves is left out: they are marked invalid at
-- once, and an invalid buffer is written by the next packet before it is delivered.
pub mod Repairs
pub mod Delivery
use rhex_service.Base.{ℕ, zero, suc, ◌+◌, ◌-◌, ◌*◌, ◌/◌, ◌%◌, ◌^◌, List, [], ◌∷◌, map}
use rhex_service.Base.{Bool, true, false, not, ◌&&◌, ◌||◌, ltb, ◌==◌, if◌then◌else◌}
use rhex_service.Base.{length, take, drop, slice, set, memcpy, le32, get_le32}
use rhex_service.Wfb.Packet.{
  PacketBuffer, param_data_packets_per_block, param_fec_packets_per_block, param_packet_length,
  sizeof_payload_header,
}
use rhex_service.Wfb.RxRawsock.{WifibroadcastRxStatus, WfbRxStreamPacket, Receiver, RxEnv}

-- The data packets and the FEC packets of a block, as long as there are places: one of each in turn.
unfoldable pub sort_packets {ℓ} : {A : Type ℓ} → ℕ → ℕ → List A → List A × List A
sort_packets zero zero ps = ([], [])
sort_packets (suc d) fi [] = ([], [])
sort_packets zero (suc f) [] = ([], [])
sort_packets (suc d) zero (p ∷ ps) = let rest = sort_packets d zero ps in (p ∷ rest.0, rest.1)
sort_packets zero (suc f) (p ∷ ps) = let rest = sort_packets zero f ps in (rest.0, p ∷ rest.1)
sort_packets (suc d) (suc f) (p ∷ []) = (p ∷ [], [])
sort_packets (suc d) (suc f) (p ∷ q ∷ ps) =
    let rest = sort_packets d f ps in (p ∷ rest.0, q ∷ rest.1)

unfoldable pub count_missing : List PacketBuffer → ℕ
count_missing [] = 0
count_missing (p ∷ ps) = (if p.valid then 0 else 1) + count_missing ps

-- An erased data block, the number of the FEC block that replaces it, and that FEC block.
pub record Repair : Type 0 where
  pub erased : ℕ
  pub fec_no : ℕ
  pub fec_block : List ℕ

-- The loop that gives each bad data packet from `di` on the next received FEC packet from `fi` on.
unfoldable pub find_repairs : ℕ → List PacketBuffer → ℕ → List PacketBuffer → List Repair
find_repairs di [] fi fs = []
find_repairs di (d ∷ ds) fi [] = []
find_repairs di (d ∷ ds) fi (f ∷ fs) =
    let next_data = find_repairs (di + 1) ds fi (f ∷ fs) in
    let next_fec = find_repairs di (d ∷ ds) (fi + 1) fs in
    let repaired = find_repairs (di + 1) ds (fi + 1) fs in
    if d.valid && d.crc_correct
    then next_data
    else if not f.valid
    then next_fec
    else (record { erased = di; fec_no = fi; fec_block = f.bytes } ∷ repaired)

-- The length that a block's payload header gives, at most the packet length.
unfoldable pub delivered_len : List ℕ → ℕ
delivered_len block =
    if ltb param_packet_length (get_le32 block 0) then param_packet_length else get_le32 block 0

unfoldable pub append_rx_data : List ℕ → ℕ → Receiver → Receiver
append_rx_data block n rx =
    let out : WfbRxStreamPacket = rx.rx_data in
    record rx {
      rx_data = record out {
        store = memcpy out.store out.bytes (slice block sizeof_payload_header n);
        bytes = out.bytes + n;
      };
    }

module _ (env : RxEnv) where
  -- The lost packets counted; the largest number in a block is kept over 220 ms.
  unfoldable pub count_lost : ℕ → Receiver → Receiver
  count_lost lost rx =
      let st : WifibroadcastRxStatus = rx.rx_status in
      let counted : WifibroadcastRxStatus = record st {
        lost_packet_cnt = (st.lost_packet_cnt + lost) % 2 ^ 32;
        received_packet_cnt =
            (st.received_packet_cnt
              + (param_data_packets_per_block + param_fec_packets_per_block - lost))
            % 2 ^ 32;
      } in
      let missing : ℕ = if ltb lost rx.packets_missing then rx.packets_missing else lost in
      let pm_now : ℕ = env.monotime rx.clock_reads in
      let rx' : Receiver = record rx {
        rx_status = counted;
        packets_missing_last = rx.packets_missing;
        packets_missing = missing;
        pm_now = pm_now;
        clock_reads = rx.clock_reads + 1;
      } in
      if ltb (220 * 1000000) ((pm_now + 2 ^ 64 - rx.pm_prev_time) % 2 ^ 64)
      then record rx' {
        pm_prev_time = env.monotime (rx.clock_reads + 1);
        rx_status = record counted { lost_per_block_cnt = missing };
        packets_missing = 0;
        packets_missing_last = 0;
        clock_reads = rx.clock_reads + 2;
      }
      else rx'

  -- The rate of the delivered bytes, over half a second.
  unfoldable pub count_rate : ℕ → Receiver → Receiver
  count_rate n rx =
      let now : ℕ = env.monotime rx.clock_reads in
      let decoded : ℕ = (rx.bytes_decoded + n) % 2 ^ 64 in
      let rx' : Receiver = record rx {
        now = now;
        bytes_decoded = decoded;
        clock_reads = rx.clock_reads + 1;
      } in
      if ltb (500 * 1000000) ((now + 2 ^ 64 - rx.prev_time) % 2 ^ 64)
      then record rx' {
        prev_time = env.monotime (rx.clock_reads + 1);
        rx_status = record (rx.rx_status) { kbitrate = decoded * 8 % 2 ^ 64 / 1024 * 2 % 2 ^ 32 };
        bytes_decoded = 0;
        clock_reads = rx.clock_reads + 2;
      }
      else rx'

  -- The loop over the data packets: a packet is delivered if the block is whole or it came itself.
  unfoldable pub deliver : Bool → List PacketBuffer → List (List ℕ) → Receiver → Receiver
  deliver failed [] blocks rx = rx
  deliver failed (p ∷ ps) [] rx = rx
  deliver failed (p ∷ ps) (b ∷ bs) rx = deliver failed ps bs (
      if not failed || p.valid
      then count_rate (delivered_len b) (append_rx_data b (delivered_len b) rx)
      else rx)

  -- The counters of a finished block, from the packets missing in it.
  unfoldable pub count_block : ℕ → ℕ → Receiver → Receiver
  count_block datas_missing fecs_missing rx =
      let st : WifibroadcastRxStatus = rx.rx_status in
      let received : Receiver = record rx {
        rx_status = record st { received_block_cnt = (st.received_block_cnt + 1) % 2 ^ 32 };
      } in
      let counted = count_lost (datas_missing + fecs_missing) received in
      let st' : WifibroadcastRxStatus = counted.rx_status in
      if ltb (param_fec_packets_per_block - fecs_missing) datas_missing
      then record counted {
        rx_status = record st' { damaged_block_cnt = (st'.damaged_block_cnt + 1) % 2 ^ 32 };
      }
      else counted

  -- The data packets and FEC packets of a block, repaired and delivered.
  unfoldable pub finish_sorted : List PacketBuffer → List PacketBuffer → Receiver → Receiver
  finish_sorted data_pkgs fec_pkgs rx =
      let datas_missing : ℕ = count_missing data_pkgs in
      let fecs_missing : ℕ = count_missing fec_pkgs in
      let repairs = find_repairs 0 data_pkgs 0 fec_pkgs in
      deliver (ltb (param_fec_packets_per_block - fecs_missing) datas_missing) data_pkgs
        (env.fec_decode param_packet_length (map (λ p. p.bytes) data_pkgs)
          (map (λ r. r.fec_block) repairs) (map (λ r. r.fec_no) repairs)
          (map (λ r. r.erased) repairs))
        (count_block datas_missing fecs_missing rx)

  -- The whole treatment of a block's packet buffers, before they are reset.
  unfoldable pub finish_packets : List PacketBuffer → Receiver → Receiver
  finish_packets pbl rx =
      let sorted = sort_packets param_data_packets_per_block param_fec_packets_per_block pbl in
      finish_sorted sorted.0 sorted.1 rx
