-- ===== src/Wfb/Link.antt =====
-- The stream sender and the stream receiver together: the order of the packets of a block.
pub mod Delivered
use rhex_service.Base.{
  ℕ, zero, suc, ◌+◌, ◌*◌, ◌%◌, ◌^◌, ◌≤◌, ◌<◌, ◌≡◌, ◌⊎◌, inl, inr, refl, sym, ap, ap₂, subst, ◌∙◌,
  arith, List, [], ◌∷◌, ◌++◌, append_assoc, map, Option, none, some, true,
}
use rhex_service.Base.{
  length, take, drop, get_or, All, All-weaken, All-map, le32, le32_round, length-map, length-take,
  drop-append, take_all,
}
use rhex_service.Wfb.Packet.{PacketBuffer}
use rhex_service.Wfb.Io.{Env, Frame}
use rhex_service.Wfb.Handed.{frame_seq}
use rhex_service.Wfb.TxRawsock.{InputBuffer, Sender}
use rhex_service.Wfb.TxRawsock.Header.{radiotap_header, ieee_header}
use rhex_service.Wfb.TxRawsock.Block.{pb_transmit_block}
use rhex_service.Wfb.TxRawsock.Block.Packets.{OnLink}
use rhex_service.Wfb.TxRawsock.Block.Sent.{IsLong, sent_payloads}
use rhex_service.Wfb.TxRawsock.Block.Whole.{FillsBlocks}
use rhex_service.Wfb.TxRawsock.Block.Places.{
  interleave, IsPlaced, block_packets, pb_transmit_block-IsPlaced,
}
use rhex_service.Wfb.RxRawsock.{Receiver, RxEnv}
use rhex_service.Wfb.RxRawsock.Decode.{sort_packets}
use rhex_service.Wfb.RxRawsock.Decode.Repairs.{Recovers}
use rhex_service.Wfb.RxRawsock.Decode.Delivery.{IsPacket, HasRoom, delivered, block_payloads}
use rhex_service.Wfb.RxRawsock.Receive.{process_payload}
use rhex_service.Wfb.RxRawsock.Receive.Steps.{receiving, packet_of}
use rhex_service.Wfb.RxRawsock.Receive.Filling.{receive_places, missing_places, IsFree}
use rhex_service.Wfb.RxRawsock.Receive.Block.{IsBlock, block_delivered}
use rhex_service.Wfb.RxRawsock.Interface.{radiotap_len, frame_payload}
use rhex_service.Wfb.RxRawsock.Interface.Payload.{frame_payload_lem}

abbrev pub sent_part : List ℕ → List ℕ
sent_part block = take 1024 block

interleave-map :
    (f : List ℕ → List ℕ) (ds fs : List (List ℕ))
    → map f (interleave ds fs) ≡ interleave (map f ds) (map f fs)
interleave-map f [] [] = refl
interleave-map f [] (x ∷ fs) = ap (λ r. f x ∷ r) (interleave-map f [] fs)
interleave-map f (d ∷ ds) [] = ap (λ r. f d ∷ r) (interleave-map f ds [])
interleave-map f (d ∷ ds) (x ∷ fs) = ap (λ r. f d ∷ f x ∷ r) (interleave-map f ds fs)

pub length-interleave : (ds fs : List (List ℕ)) → length (interleave ds fs) ≡ length ds + length fs
length-interleave [] [] = refl
length-interleave [] (f ∷ fs) = omega (arith, length-interleave [] fs)
length-interleave (d ∷ ds) [] = omega (arith, length-interleave ds [])
length-interleave (d ∷ ds) (f ∷ fs) = omega (arith, length-interleave ds fs)

-- The receiver takes a block apart as the sender put it together.
sort_packets-interleave :
    (ds fs : List (List ℕ)) (m n : ℕ)
    → length ds ≡ m
    → length fs ≡ n
    → n ≤ m
    → sort_packets m n (interleave ds fs) ≡ (ds, fs)
unfolding sort_packets
sort_packets-interleave [] [] zero zero e g h = refl
sort_packets-interleave (d ∷ ds) [] (suc m) zero e g h =
    rw (sort_packets-interleave ds [] m zero (omega arith) refl (omega arith)) refl
sort_packets-interleave (d ∷ ds) (f ∷ fs) (suc m) (suc n) e g h =
    rw (sort_packets-interleave ds fs m n (omega arith) (omega arith) (omega arith)) refl
sort_packets-interleave [] fs (suc m) n e g h = absurd (omega arith)
sort_packets-interleave [] [] zero (suc n) e g h = absurd (omega arith)
sort_packets-interleave [] (f ∷ fs) zero n e g h = absurd (omega arith)
sort_packets-interleave (d ∷ ds) fs zero n e g h = absurd (omega arith)
sort_packets-interleave (d ∷ ds) [] (suc m) (suc n) e g h = absurd (omega arith)
sort_packets-interleave (d ∷ ds) (f ∷ fs) (suc m) zero e g h = absurd (omega arith)

pub get_or-map :
    (f : List ℕ → List ℕ) (xs : List (List ℕ)) (i : ℕ)
    → i < length xs
    → get_or (map f xs) i [] ≡ f (get_or xs i [])
get_or-map f [] i h = absurd (omega arith)
get_or-map f (x ∷ xs) zero h = refl
get_or-map f (x ∷ xs) (suc i) h = get_or-map f xs i (omega arith)

All-interleave :
    (ds fs : List (List ℕ)) → All IsLong ds → All IsLong fs → All IsLong (interleave ds fs)
All-interleave [] [] v w = tt
All-interleave [] (f ∷ fs) v w = (w.0, All-interleave [] fs v w.1)
All-interleave (d ∷ ds) [] v w = (v.0, All-interleave ds [] v.1 w)
All-interleave (d ∷ ds) (f ∷ fs) v w = (v.0, (w.0, All-interleave ds fs v.1 w.1))

get_or-IsLong :
    (xs : List (List ℕ)) (i : ℕ) → All IsLong xs → i < length xs → IsLong (get_or xs i [])
get_or-IsLong [] i v h = absurd (omega arith)
get_or-IsLong (x ∷ xs) zero v h = v.0
get_or-IsLong (x ∷ xs) (suc i) v h = get_or-IsLong xs i v.1 (omega arith)

-- The sender's block, as the receiver's theorems see one.
pub sent-IsBlock :
    (ds fs : List (List ℕ))
    → length ds ≡ 8
    → length fs ≡ 4
    → All IsLong ds
    → All IsLong fs
    → All IsPacket (map sent_part ds)
    → IsBlock (map sent_part (interleave ds fs)) (map sent_part ds) (map sent_part fs)
sent-IsBlock ds fs eight four v w packets = record {
  twelve =
      length-map sent_part (interleave ds fs) ∙ omega (arith, length-interleave ds fs, eight, four);
  long = λ i h.
      ap length (
        get_or-map sent_part (interleave ds fs) i
          (omega (arith, length-interleave ds fs, eight, four)))
      ∙ omega (
        arith,
        length-take 1024 (get_or (interleave ds fs) i []),
        get_or-IsLong (interleave ds fs) i (All-interleave ds fs v w)
            (omega (arith, length-interleave ds fs, eight, four)),
      );
  sorted =
      ap (sort_packets 8 4) (interleave-map sent_part ds fs)
      ∙ sort_packets-interleave (map sent_part ds) (map sent_part fs) 8 4
          (length-map sent_part ds ∙ eight) (length-map sent_part fs ∙ four) (omega arith);
  eight = length-map sent_part ds ∙ eight;
  four = length-map sent_part fs ∙ four;
  packets = packets;
}
