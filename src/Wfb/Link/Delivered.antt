-- ===== src/Wfb/Link/Delivered.antt =====
-- A block from `pb_transmit_block`, when frames arrive, to `process_payload`.
use rhex_service.Base.{Bool}
use rhex_service.Base.{
  ℕ, ◌+◌, ◌*◌, ◌%◌, ◌^◌, ◌≤◌, ◌<◌, ◌≡◌, ◌⊎◌, inl, inr, refl, sym, ap, subst, ◌∙◌, arith, List, [],
  ◌∷◌, ◌++◌, append_assoc, map, Option, none, some, true,
}
use rhex_service.Base.{
  length, take, drop, get_or, All, All-weaken, All-map, le32, le32_round, length-map, drop-append,
  take_all, get_le32,
}
use rhex_service.Wfb.Packet.{PacketBuffer}
use rhex_service.Wfb.Io.{Env, Frame}
use rhex_service.Wfb.Handed.{frame_seq, block_payload}
use rhex_service.Wfb.TxRawsock.{Sender}
use rhex_service.Wfb.TxRawsock.Header.{radiotap_header, ieee_header}
use rhex_service.Wfb.TxRawsock.Block.{pb_transmit_block}
use rhex_service.Wfb.TxRawsock.Block.Packets.{OnLink}
use rhex_service.Wfb.TxRawsock.Block.Sent.{IsLong, sent_payloads}
use rhex_service.Wfb.TxRawsock.Block.Whole.{FillsBlocks}
use rhex_service.Wfb.TxRawsock.Block.Places.{
  interleave, IsPlaced, block_packets, pb_transmit_block-IsPlaced,
}
use rhex_service.Wfb.RxRawsock.{Receiver, RxEnv, PayloadData}
use rhex_service.Wfb.RxRawsock.Decode.Repairs.{Recovers}
use rhex_service.Wfb.RxRawsock.Decode.Delivery.{IsPacket, HasRoom, delivered, block_payloads}
use rhex_service.Wfb.RxRawsock.Receive.{process_payload}
use rhex_service.Wfb.RxRawsock.Receive.Steps.{receiving, packet_of}
use rhex_service.Wfb.RxRawsock.Receive.Filling.{receive_places, missing_places, IsFree}
use rhex_service.Wfb.RxRawsock.Receive.Block.{block_delivered}
use rhex_service.Wfb.RxRawsock.Interface.{radiotap_len, frame_payload}
use rhex_service.Wfb.RxRawsock.Interface.Payload.{frame_payload_lem}
use rhex_service.Wfb.Link.{sent_part, length-interleave, get_or-map, sent-IsBlock}

-- A frame as a card delivers it: its own radiotap header in place of the sender's.
abbrev pub on_card : List ℕ → List ℕ → List ℕ
on_card radio frame = radio ++ drop (radiotap_len frame) frame

-- Frames that arrive one after the other; `accepts` says which of them
-- ieee80211_radiotap_iterator_init() accepts, and `last` is the length of the last 802.11 header.
unfoldable pub receive_frames :
    (List ℕ → Bool) → RxEnv → List ℕ → ℕ → List Frame → Receiver → Option Receiver
receive_frames accepts env radio last [] rx = some rx
receive_frames accepts env radio last (f ∷ fs) rx =
    let frame = on_card radio f.bytes in
    elim (frame_payload (accepts frame) last frame (length frame)) [
      | none ↦ none
      | some got ↦ receive_frames accepts env radio got.0 fs (process_payload env got.1 rx)
    ]

receive_one :
    (accepts : List ℕ → Bool) (env : RxEnv) (radio : List ℕ) (last : ℕ) (f : Frame)
    (fs : List Frame) (rx : Receiver) (n : ℕ) (pd : PayloadData)
    → accepts (on_card radio f.bytes) ≡ true
    → frame_payload true last (on_card radio f.bytes) (length (on_card radio f.bytes))
      ≡ some (n, pd)
    → receive_frames accepts env radio last (f ∷ fs) rx
      ≡ receive_frames accepts env radio n fs (process_payload env pd rx)
unfolding receive_frames
receive_one accepts env radio last f fs rx n pd parsed e = rw (receive_frames, parsed, e) refl

-- The place that a frame behind a header of `h` bytes has in its block.
abbrev pub place_of : ℕ → Frame → ℕ
place_of h f = frame_seq h f.bytes % 12

abbrev pub Among : Frame → List Frame → Type 0
Among f [] = ⊥
Among f (g ∷ gs) = (f ≡ g) ⊎ Among f gs

All-Among : (P : Frame → Type 0) (gs : List Frame) (f : Frame) → All P gs → Among f gs → P f
All-Among P [] f v h = absurd h
All-Among P (g ∷ gs) f v (inl e) = subst P (sym e) v.0
All-Among P (g ∷ gs) f v (inr h) = All-Among P gs f v.1 h

-- The frames that the block adds to what was written.
abbrev pub block_frames : Env → Sender → List Frame
block_frames env s = drop (length s.io.frames) (pb_transmit_block env 1024 8 4 s).io.frames

module _ (radio ieee : List ℕ) (d type port : ℕ) (known : ieee_header type port ≡ some ieee) where
  -- A frame with its place, on the receiving card.
  on_card-IsPlaced :
      (n : ℕ) (pkts : List (List ℕ)) (f : Frame) (v : IsPlaced (radiotap_header d ++ ieee) n pkts f)
      → on_card radio f.bytes
        ≡ radio ++ (ieee ++ (le32 (n + v.place) ++ take 1024 (get_or pkts v.place [])))
  on_card-IsPlaced n pkts f v =
      let rest = le32 (n + v.place) ++ take 1024 (get_or pkts v.place []) in
      ap (on_card radio) (v.carries ∙ append_assoc (radiotap_header d) ieee rest)

  place_of-IsPlaced :
      (b : ℕ) (pkts : List (List ℕ)) (f : Frame)
      (v : IsPlaced (radiotap_header d ++ ieee) (12 * b) pkts f)
      → length pkts ≡ 12
      → 12 * b + 12 ≤ 2 ^ 32
      → place_of (length (radiotap_header d ++ ieee)) f ≡ v.place
  place_of-IsPlaced b pkts f v twelve fits =
      let hdr = radiotap_header d ++ ieee in
      let rest = take 1024 (get_or pkts v.place []) in
      let small : v.place < 12 = omega (arith, v.within, twelve) in
      ap (λ x. place_of (length hdr) (record { sock = 0; bytes = x })) v.carries
      ∙ ap (λ x. (get_le32 x 0) % 12) (drop-append hdr (le32 (12 * b + v.place) ++ rest))
      ∙ ap (λ x. x % 12) (le32_round (12 * b + v.place) rest (omega arith))
      ∙ omega arith

  module _ (accepts : List ℕ → Bool) (parsed : (rest : List ℕ) → accepts (radio ++ rest) ≡ true)
      (rx_env : RxEnv) (own : radiotap_len radio ≡ length radio) (four : 4 ≤ length radio)
      (short : length radio < 2 ^ 16) (b : ℕ) (pkts : List (List ℕ)) (twelve : length pkts ≡ 12)
      (fits : 12 * b + 12 ≤ 2 ^ 32) where
    receive_frames-places :
        (got : List Frame) (last : ℕ) (rx : Receiver)
        → All (IsPlaced (radiotap_header d ++ ieee) (12 * b) pkts) got
        → (receive_frames accepts rx_env radio last got rx
            ≡ some (
                receive_places rx_env b
                  (map sent_part pkts)
                  (map (place_of (length (radiotap_header d ++ ieee))) got)
                  rx))
          × All (λ i. i < 12) (map (place_of (length (radiotap_header d ++ ieee))) got)
    unfolding receive_frames receive_places
    receive_frames-places [] last rx v = (refl, tt)
    receive_frames-places (f ∷ fs) last rx v =
        let w = v.0 in
        let x = take 1024 (get_or pkts w.place []) in
        let i = place_of (length (radiotap_header d ++ ieee)) f in
        let same : i ≡ w.place = place_of-IsPlaced b pkts f w twelve fits in
        let found : frame_payload true last (on_card radio f.bytes) (length (on_card radio f.bytes))
            ≡ some (length ieee, packet_of b w.place x) =
          ap (λ c. frame_payload true last c (length c)) (on_card-IsPlaced (12 * b) pkts f w)
          ∙ frame_payload_lem last type port b w.place radio ieee x own four short known in
        let stored : packet_of b w.place x ≡ packet_of b i (get_or (map sent_part pkts) i []) =
          ap (λ k. packet_of b k (take 1024 (get_or pkts k []))) (sym same)
          ∙ ap (packet_of b i)
              (sym (get_or-map sent_part pkts i (omega (arith, same, w.within)))) in
        let rest =
          receive_frames-places fs (length ieee)
            (process_payload rx_env (packet_of b i (get_or (map sent_part pkts) i [])) rx) v.1 in
        (
          receive_one accepts rx_env radio last f fs rx (length ieee) (packet_of b w.place x)
                (parsed (drop (radiotap_len f.bytes) f.bytes)) found
              ∙ ap
                  (λ p.
                    receive_frames accepts rx_env radio (length ieee) fs
                      (process_payload rx_env p rx))
                  stored
              ∙ rest.0,
          (omega (arith, same, w.within, twelve), rest.1),
        )

  module _ (env : Env) (s : Sender) (k : ℕ)
      (header : take (length (radiotap_header d ++ ieee)) s.stream.buf
        ≡ radiotap_header d ++ ieee) where
    -- The stream bytes of eight full packet buffers, sent as block b, which starts at the sequence
    -- number 12 * b, with the radio header that the sender sets up on one adapter: when a receiver
    -- with free buffers for block b gets any of the frames that pb_transmit_block hands to write(),
    -- in any order and perhaps repeatedly, so that at most four places of the block are missing,
    -- each behind the same radiotap header of 4 to 2^16 - 1 bytes, which gives its own length and
    -- which the radiotap parser accepts whatever is behind it, then it takes them all, and a packet
    -- of a later block makes it deliver the eight packets' stream bytes in order. fec_encode()
    -- fills its blocks, fec_decode() restores this one, a payload header is within its packet,
    -- there is room for 8192 bytes and the sequence numbers fit 32 bits.
    pub stream_block_delivered :
        (accepts : List ℕ → Bool) (rx_env : RxEnv) (b b' k' last : ℕ) (x' : List ℕ)
        (got : List Frame) (pbl : List PacketBuffer) (rx : Receiver)
        → OnLink (length (radiotap_header d ++ ieee)) k s
        → FillsBlocks env
        → All (λ p. IsLong p.bytes) s.stream.input_buffer.pbl
        → All (λ p. IsPacket (sent_part p.bytes)) s.stream.input_buffer.pbl
        → length s.stream.input_buffer.pbl ≡ 8
        → s.stream.input_buffer.seq_nr ≡ 12 * b
        → radiotap_len radio ≡ length radio
        → 4 ≤ length radio
        → length radio < 2 ^ 16
        → ((rest : List ℕ) → accepts (radio ++ rest) ≡ true)
        → All (λ f. Among f (block_frames env s)) got
        → missing_places (map (place_of (length (radiotap_header d ++ ieee))) got) ≤ 4
        → (let blocks = map (λ (p : PacketBuffer). p.bytes) s.stream.input_buffer.pbl in
            Recovers rx_env (map sent_part blocks) (map sent_part (env.fec_encode 1024 blocks 4)))
        → length pbl ≡ 12
        → All IsFree pbl
        → HasRoom 8192 rx
        → b < b'
        → k' < 12
        → 12 * b' + 12 ≤ 2 ^ 32
        → (rx1 : Receiver) × (receive_frames accepts rx_env radio last got (receiving b pbl rx)
            ≡ some rx1)
          × (delivered (process_payload rx_env (packet_of b' k' x') rx1)
              ≡ delivered rx
                ++ sent_payloads (map (λ (p : PacketBuffer). p.bytes) s.stream.input_buffer.pbl))
    stream_block_delivered accepts rx_env b b' k' last x' got pbl rx link fills long packets eight
          number own four short parsed among missing recovers twelve free room later place fits =
        let input = s.stream.input_buffer in
        let blocks = map (λ (p : PacketBuffer). p.bytes) input.pbl in
        let fecs = env.fec_encode 1024 blocks 4 in
        let h = length (radiotap_header d ++ ieee) in
        let bytes8 : length blocks ≡ 8 =
          length-map (λ (p : PacketBuffer). p.bytes) input.pbl ∙ eight in
        let ks = map (place_of h) got in
        let pkts = interleave blocks fecs in
        let whole : block_packets env input ≡ pkts =
          ap
            (λ q.
              interleave (map (λ (p : PacketBuffer). p.bytes) q)
                (env.fec_encode 1024 (map (λ (p : PacketBuffer). p.bytes) q) 4))
            (take_all 8 input.pbl (omega (arith, eight))) in
        let (new, frames, placed) =
          pb_transmit_block-IsPlaced env h k s link fills long eight (omega arith) in
        let added : block_frames env s ≡ new =
          ap (drop (length s.io.frames)) frames ∙ drop-append s.io.frames new in
        let with_header : All
            (IsPlaced (radiotap_header d ++ ieee) input.seq_nr (block_packets env input)) new =
          subst (λ t. All (IsPlaced t input.seq_nr (block_packets env input)) new) header placed in
        let numbered : All (IsPlaced (radiotap_header d ++ ieee) (12 * b) pkts) new =
          subst (λ t. All (IsPlaced (radiotap_header d ++ ieee) (12 * b) t) new) whole
            (subst (λ t. All (IsPlaced (radiotap_header d ++ ieee) t (block_packets env input)) new)
              number with_header) in
        let got_placed : All (IsPlaced (radiotap_header d ++ ieee) (12 * b) pkts) got =
          All-weaken (λ f. Among f (block_frames env s))
            (IsPlaced (radiotap_header d ++ ieee) (12 * b) pkts) got
            (λ f a.
              All-Among (IsPlaced (radiotap_header d ++ ieee) (12 * b) pkts) new f numbered
                (subst (Among f) added a))
            among in
        let (run, small) =
          receive_frames-places accepts parsed rx_env own four short b pkts
            (length-interleave blocks fecs ∙ omega (arith, bytes8, (fills blocks).0)) (omega arith)
            got last (receiving b pbl rx) got_placed in
        let blk =
          sent-IsBlock blocks fecs bytes8 (fills blocks).0
            (All-map IsLong (λ (p : PacketBuffer). p.bytes) input.pbl long) (fills blocks).1
            (All-map IsPacket sent_part blocks (
              All-map (λ x. IsPacket (sent_part x)) (λ (p : PacketBuffer). p.bytes) input.pbl
                packets)) in
        (
          receive_places rx_env b (map sent_part pkts) ks (receiving b pbl rx),
          run,
          block_delivered rx_env b b' k' x' (map sent_part pkts) (map sent_part blocks)
                (map sent_part fecs) ks pbl rx blk recovers twelve free small missing room later
                place fits
              ∙ ap (λ t. delivered rx ++ t) (same_payloads blocks),
        )
      where
        same_payloads : (ds : List (List ℕ)) → block_payloads (map sent_part ds) ≡ sent_payloads ds
        same_payloads [] = refl
        same_payloads (x ∷ ds) = ap (λ t. block_payload (take 1024 x) ++ t) (same_payloads ds)
