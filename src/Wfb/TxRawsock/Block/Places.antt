-- ===== src/Wfb/TxRawsock/Block/Places.antt =====
-- Which frames a block is sent in: each packet has its place, and the place its sequence number.
use rhex_service.Base.{
  ℕ, suc, ◌+◌, ◌*◌, ◌%◌, ◌^◌, ◌≤◌, ◌<◌, ◌≡◌, refl, sym, ap, subst, ◌∙◌, arith, List, [], ◌∷◌, ◌++◌,
  append-nil, append_assoc, map,
}
use rhex_service.Base.{
  length, take, get_or, All, All-append, All-weaken, le32, if_intro, ◌==◌, length-map, take_all,
  All-map,
}
use rhex_service.Base.Int.{pos, ltb_ℤ}
use rhex_service.Wfb.Packet.{PacketBuffer}
use rhex_service.Wfb.Io.{Env, Frame, svc_get_monotime}
use rhex_service.Wfb.TxRawsock.{InputBuffer, Sender}
use rhex_service.Wfb.TxRawsock.Block.{
  Loop, pb_transmit_packet, send_data, send_fec, count_skip, send_interleaved, measure_block,
  finish_block, pb_transmit_block,
}
use rhex_service.Wfb.TxRawsock.Block.Packets.{
  OnLink, OnLink-same, frames-pb_transmit_packet, pb_transmit_packet-OnLink,
  header-pb_transmit_packet,
}
use rhex_service.Wfb.TxRawsock.Block.Sent.{IsLong}
use rhex_service.Wfb.TxRawsock.Block.Whole.{FillsBlocks}

-- The packets of a block in the order of their places.
abbrev pub interleave : List (List ℕ) → List (List ℕ) → List (List ℕ)
interleave [] [] = []
interleave [] (f ∷ fs) = f ∷ interleave [] fs
interleave (d ∷ ds) [] = d ∷ interleave ds []
interleave (d ∷ ds) (f ∷ fs) = d ∷ f ∷ interleave ds fs

-- A frame with the radio header, the sequence number of a place, and the packet of that place.
pub record IsPlaced (hdr : List ℕ) (n : ℕ) (pkts : List (List ℕ)) (f : Frame) : Type 0 where
  pub place : ℕ
  pub within : place < length pkts
  pub carries : f.bytes ≡ hdr ++ (le32 (n + place) ++ take 1024 (get_or pkts place []))

IsPlaced-behind :
    (hdr : List ℕ) (n : ℕ) (p : List ℕ) (pkts : List (List ℕ)) (f : Frame)
    → IsPlaced hdr (n + 1) pkts f
    → IsPlaced hdr n (p ∷ pkts) f
IsPlaced-behind hdr n p pkts f v = record {
  place = suc v.place;
  within = omega (arith, v.within);
  carries =
      v.carries
      ∙ ap (λ m. hdr ++ (le32 m ++ take 1024 (get_or pkts v.place []))) {x = n + 1 + v.place}
          {y = n + suc v.place} (omega arith);
}

-- The twelve packets of the block that waits in the packet buffers.
abbrev pub block_packets : Env → InputBuffer → List (List ℕ)
block_packets env input =
    let blocks = map (λ (p : PacketBuffer). p.bytes) (take 8 input.pbl) in
    interleave blocks (env.fec_encode 1024 blocks 4)

module _ (env : Env) (h k : ℕ) (hdr : List ℕ) where
  -- The sender's link, its header, and the frames added since `io` had `before`.
  record Added (n : ℕ) (pkts : List (List ℕ)) (before : List Frame) (s : Sender) : Type 0 where
    link : OnLink h k s
    header : take h s.stream.buf ≡ hdr
    new : List Frame
    frames : s.io.frames ≡ before ++ new
    placed : All (IsPlaced hdr n pkts) new

  Added-transmit :
      (n : ℕ) (p : List ℕ) (pkts : List (List ℕ)) (s : Sender)
      → n < 2 ^ 32
      → IsLong p
      → OnLink h k s
      → take h s.stream.buf ≡ hdr
      → Added n (p ∷ pkts) s.io.frames (pb_transmit_packet env s n p 1024).1
  Added-transmit n p pkts s hn long link header = record {
    link = pb_transmit_packet-OnLink env h k s link n p long;
    header = header-pb_transmit_packet env h k s link n p long ∙ header;
    new = _;
    frames = frames-pb_transmit_packet env h k s link n p long;
    placed = (
      record {
        place = 0;
        within = omega arith;
        carries =
            ap (λ b. b ++ (le32 (n % 2 ^ 32) ++ take 1024 p)) header
            ∙ ap (λ m. hdr ++ (le32 m ++ take 1024 p)) {x = n % 2 ^ 32} {y = n + 0} (omega arith);
      },
      tt,
    );
  }

  -- One step and then the rest.
  Added-then :
      (n : ℕ) (p : List ℕ) (pkts : List (List ℕ)) (before : List Frame) (s s' : Sender)
      → Added n (p ∷ pkts) before s
      → Added (n + 1) pkts s.io.frames s'
      → Added n (p ∷ pkts) before s'
  Added-then n p pkts before s s' one rest = record {
    link = rest.link;
    header = rest.header;
    new = one.new ++ rest.new;
    frames =
        rest.frames ∙ ap (λ fs. fs ++ rest.new) one.frames ∙ append_assoc before one.new rest.new;
    placed = All-append (IsPlaced hdr n (p ∷ pkts)) one.new rest.new one.placed (
        All-weaken (IsPlaced hdr (n + 1) pkts) (IsPlaced hdr n (p ∷ pkts)) rest.new
          (λ f v. IsPlaced-behind hdr n p pkts f v) rest.placed);
  }

  Added-nil :
      (n : ℕ) (pkts : List (List ℕ)) (s : Sender)
      → OnLink h k s
      → take h s.stream.buf ≡ hdr
      → Added n pkts s.io.frames s
  Added-nil n pkts s link header = record {
    link = link;
    header = header;
    new = [];
    frames = sym (append-nil s.io.frames);
    placed = tt;
  }

  Added-send_data :
      (n : ℕ) (p : List ℕ) (pkts : List (List ℕ)) (l : Loop)
      → n < 2 ^ 32
      → IsLong p
      → l.seq_nr_tmp ≡ n
      → OnLink h k l.sender
      → take h l.sender.stream.buf ≡ hdr
      → Added n (p ∷ pkts) l.sender.io.frames (send_data env 1024 p l).sender
        × ((send_data env 1024 p l).seq_nr_tmp ≡ n + 1)
  unfolding send_data
  Added-send_data n p pkts l hn long e link header =
      rw e (Added-transmit n p pkts l.sender hn long link header, refl)

  Added-send_fec :
      (n : ℕ) (p : List ℕ) (pkts : List (List ℕ)) (l : Loop)
      → n < 2 ^ 32
      → IsLong p
      → l.seq_nr_tmp ≡ n
      → OnLink h k l.sender
      → take h l.sender.stream.buf ≡ hdr
      → Added n (p ∷ pkts) l.sender.io.frames (send_fec env 1024 p l).sender
        × ((send_fec env 1024 p l).seq_nr_tmp ≡ n + 1)
  unfolding send_fec
  Added-send_fec n p pkts l hn long e link header =
      if_intro
        (λ (r : Loop). Added n (p ∷ pkts) l.sender.io.frames r.sender × (r.seq_nr_tmp ≡ n + 1))
        (ltb_ℤ l.sender.skipfec (pos 1)) sent
        (if_intro
          (λ (r : Loop). Added n (p ∷ pkts) l.sender.io.frames r.sender × (r.seq_nr_tmp ≡ n + 1))
          ((l.counterfec % 2) == 0) sent
          (Added-nil n (p ∷ pkts) l.sender link header, ap (λ m. m + 1) e))
    where
      sent :
          Added n
            (p ∷ pkts)
            l.sender.io.frames
            (pb_transmit_packet env l.sender l.seq_nr_tmp p 1024).1
          × (l.seq_nr_tmp + 1 ≡ n + 1)
      sent = rw e (Added-transmit n p pkts l.sender hn long link header, refl)

  Added-send_interleaved :
      (ds fs : List (List ℕ)) (l : Loop) (n : ℕ)
      → All IsLong ds
      → All IsLong fs
      → n + length ds + length fs ≤ 2 ^ 32
      → l.seq_nr_tmp ≡ n
      → OnLink h k l.sender
      → take h l.sender.stream.buf ≡ hdr
      → Added n (interleave ds fs) l.sender.io.frames (send_interleaved env 1024 ds fs l).sender
  unfolding send_interleaved count_skip
  Added-send_interleaved [] [] l n lds lfs hn e link header = Added-nil n [] l.sender link header
  Added-send_interleaved [] (f ∷ fs) l n lds lfs hn e link header =
      let (one, next) = Added-send_fec n f (interleave [] fs) l (omega arith) lfs.0 e link header in
      Added-then n f (interleave [] fs) l.sender.io.frames _ _ one (
        Added-send_interleaved [] fs (count_skip (send_fec env 1024 f l)) (n + 1) tt lfs.1
          (omega arith) next (OnLink-same refl one.link) one.header)
  Added-send_interleaved (d ∷ ds) [] l n lds lfs hn e link header =
      let (one, next) =
        Added-send_data n d (interleave ds []) l (omega arith) lds.0 e link header in
      Added-then n d (interleave ds []) l.sender.io.frames _ _ one (
        Added-send_interleaved ds [] (count_skip (send_data env 1024 d l)) (n + 1) lds.1 tt
          (omega arith) next (OnLink-same refl one.link) one.header)
  Added-send_interleaved (d ∷ ds) (f ∷ fs) l n lds lfs hn e link header =
      let l1 = send_data env 1024 d l in
      let (one, next) =
        Added-send_data n d (f ∷ interleave ds fs) l (omega arith) lds.0 e link header in
      let (two, last) =
        Added-send_fec (n + 1) f (interleave ds fs) l1 (omega arith) lfs.0 next one.link
          one.header in
      Added-then n d (f ∷ interleave ds fs) l.sender.io.frames _ _ one (
        Added-then (n + 1) f (interleave ds fs) l1.sender.io.frames _ _ two (
          Added-send_interleaved ds fs (count_skip (send_fec env 1024 f l1)) (n + 1 + 1) lds.1 lfs.1
            (omega arith) last (OnLink-same refl two.link) two.header))

module _ (env : Env) (h k : ℕ) where
  frames-measure_block :
      (prev bytes : ℕ) (s : Sender) → (measure_block env prev bytes s).io.frames ≡ s.io.frames
  unfolding measure_block
  frames-measure_block prev bytes s = ground arith

  -- placed
  pub pb_transmit_block-IsPlaced :
      (s : Sender)
      → OnLink h k s
      → FillsBlocks env
      → All (λ p. IsLong p.bytes) s.stream.input_buffer.pbl
      → length s.stream.input_buffer.pbl ≡ 8
      → s.stream.input_buffer.seq_nr + 12 ≤ 2 ^ 32
      → (new : List Frame) × ((pb_transmit_block env 1024 8 4 s).io.frames ≡ s.io.frames ++ new)
        × All
            (IsPlaced
              (take h s.stream.buf)
              s.stream.input_buffer.seq_nr
              (block_packets env s.stream.input_buffer))
            new
  unfolding pb_transmit_block finish_block
  pb_transmit_block-IsPlaced s link fills long eight fits =
      let input = s.stream.input_buffer in
      let blocks = map (λ (p : PacketBuffer). p.bytes) (take 8 input.pbl) in
      let fecs = env.fec_encode 1024 blocks 4 in
      let all : take 8 input.pbl ≡ input.pbl = take_all 8 input.pbl (omega (arith, eight)) in
      let long8 : All IsLong blocks =
        subst (λ q. All IsLong (map (λ (p : PacketBuffer). p.bytes) q)) (sym all)
          (All-map IsLong (λ (p : PacketBuffer). p.bytes) input.pbl long) in
      let start : Loop = record {
        sender = record s { io = (svc_get_monotime env s.io).1 };
        seq_nr_tmp = input.seq_nr;
        counterfec = 0;
      } in
      let sent =
        Added-send_interleaved env h k (take h s.stream.buf) blocks fecs start input.seq_nr long8
          (fills blocks).1
          (omega (
            arith,
            (fills blocks).0,
            fits,
            eight,
            ap length all,
            length-map (λ (p : PacketBuffer). p.bytes) (take 8 input.pbl),
          ))
          refl (OnLink-same refl link) refl in
      (
        sent.new,
        frames-measure_block (svc_get_monotime env s.io).0 (1024 * (8 + 4)) _ ∙ sent.frames,
        sent.placed,
      )
