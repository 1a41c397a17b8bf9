-- ===== src/Wfb/TxRawsock/Block/Sent.antt =====
-- The sending loop of `pb_transmit_block`: what of a block is handed to write().
use rhex_service.Base.{ℕ, ◌+◌, ◌%◌, ◌^◌, ◌≤◌, ◌<◌, ◌≡◌, refl, ap, ap₂, ◌∙◌}
use rhex_service.Base.{List, [], ◌∷◌, ◌++◌, append-nil, append_assoc, arith}
use rhex_service.Base.{length, take, All, le32, ◌⊎◌, true, false, if_intro, ◌==◌}
use rhex_service.Base.Int.{pos, ltb_ℤ}
use rhex_service.Wfb.Io.{Env}
use rhex_service.Wfb.Handed.{is_data_place, block_payload, handed, handed-append, handed_one}
use rhex_service.Wfb.Handed.{handed_payload, handed_payload_data, handed_payload_fec}
use rhex_service.Wfb.TxRawsock.{InputBuffer, Sender}
use rhex_service.Wfb.TxRawsock.Block.{
  Loop, pb_transmit_packet, send_data, send_fec, count_skip, send_interleaved,
}
use rhex_service.Wfb.TxRawsock.Block.Packets.{
  OnLink, OnLink-same, frames-pb_transmit_packet, pb_transmit_packet-OnLink,
  input_buffer-pb_transmit_packet, header-pb_transmit_packet,
}

-- The payloads of the data blocks, as they are sent.
abbrev pub sent_payloads : List (List ℕ) → List ℕ
sent_payloads [] = []
sent_payloads (d ∷ ds) = block_payload (take 1024 d) ++ sent_payloads ds

-- A block packet of at least the sent length.
abbrev pub IsLong : List ℕ → Type 0
IsLong block = 1024 ≤ length block

module _ (env : Env) (h k : ℕ) (hdr : List ℕ) (hh : length hdr ≡ h) (input : InputBuffer) where
  -- The sender has handed over `out`, and the rest of its stream is as before the block.
  pub record HasSent (s : Sender) (out : List ℕ) : Type 0 where
    pub link : OnLink h k s
    pub header : take h s.stream.buf ≡ hdr
    pub input_kept : s.stream.input_buffer ≡ input
    pub sent : handed h s.io.frames ≡ out

  -- It depends on the stream and the frames alone.
  pub HasSent-same :
      {s s' : Sender} {out : List ℕ}
      → s'.stream ≡ s.stream
      → s'.io.frames ≡ s.io.frames
      → HasSent s out
      → HasSent s' out
  HasSent-same e f v = record {
    link = OnLink-same e v.link;
    header = ap (λ t. take h t.buf) e ∙ v.header;
    input_kept = ap (λ t. t.input_buffer) e ∙ v.input_kept;
    sent = ap (handed h) f ∙ v.sent;
  }

  module _ (s : Sender) (out : List ℕ) (v : HasSent s out) (n : ℕ) (hn : n < 2 ^ 32)
      (block : List ℕ) (long : IsLong block) where
    handed-pb_transmit_packet :
        handed h (pb_transmit_packet env s n block 1024).1.io.frames
        ≡ out ++ handed_payload h (hdr ++ (le32 n ++ take 1024 block))
    handed-pb_transmit_packet =
        ap (handed h) (frames-pb_transmit_packet env h k s v.link n block long)
        ∙ handed-append h s.io.frames _
        ∙ ap₂ ◌++◌ v.sent (handed_one h k _)
        ∙ ap₂ (λ p m. out ++ handed_payload h (p ++ (le32 m ++ take 1024 block))) v.header
            (omega arith)

    packet_kept :
        (extra : List ℕ)
        → handed_payload h (hdr ++ (le32 n ++ take 1024 block)) ≡ extra
        → HasSent (pb_transmit_packet env s n block 1024).1 (out ++ extra)
    packet_kept extra e = record {
      link = pb_transmit_packet-OnLink env h k s v.link n block long;
      header = header-pb_transmit_packet env h k s v.link n block long ∙ v.header;
      input_kept = input_buffer-pb_transmit_packet env h k s v.link n block long ∙ v.input_kept;
      sent = handed-pb_transmit_packet ∙ ap (λ r. out ++ r) e;
    }

    data_sent :
        is_data_place (n % 12) ≡ true
        → HasSent (pb_transmit_packet env s n block 1024).1 (out ++ block_payload (take 1024 block))
    data_sent place = packet_kept _ (handed_payload_data h hdr n (take 1024 block) hh hn place)

    fec_sent :
        is_data_place (n % 12) ≡ false → HasSent (pb_transmit_packet env s n block 1024).1 out
    fec_sent place =
        rw (append-nil out) at
          (packet_kept [] (handed_payload_fec h hdr n (take 1024 block) hh hn place))

  -- The loop's variables: the next sequence number, and what was handed over.
  pub record At (l : Loop) (n : ℕ) (out : List ℕ) : Type 0 where
    pub state : HasSent l.sender out
    pub number : l.seq_nr_tmp ≡ n

  module _ (l : Loop) (n : ℕ) (out : List ℕ) (at_n : At l n out) (hn : n < 2 ^ 32) where
    send_data-At :
        (d : List ℕ)
        → IsLong d
        → is_data_place (n % 12) ≡ true
        → At (send_data env 1024 d l) (n + 1) (out ++ block_payload (take 1024 d))
    unfolding send_data
    send_data-At d long place =
        rw at_n.number
          record { state = data_sent l.sender out at_n.state n hn d long place; number = refl }

    -- Sent or skipped, an FEC packet uses up its number and adds no stream byte.
    send_fec-At :
        (f : List ℕ)
        → IsLong f
        → is_data_place (n % 12) ≡ false
        → At (send_fec env 1024 f l) (n + 1) out
    unfolding send_fec
    send_fec-At f long place =
        if_intro (λ r. At r (n + 1) out) (ltb_ℤ l.sender.skipfec (pos 1)) (sent_on l.counterfec)
          (if_intro (λ r. At r (n + 1) out) ((l.counterfec % 2) == 0) (sent_on (l.counterfec + 1))
            (skipped (l.counterfec + 1)))
      where
        next_number : l.seq_nr_tmp + 1 ≡ n + 1
        next_number = ap (λ m. m + 1) at_n.number

        with_number : HasSent (pb_transmit_packet env l.sender l.seq_nr_tmp f 1024).1 out
        with_number = rw at_n.number (fec_sent l.sender out at_n.state n hn f long place)

        sent_on :
            (c : ℕ)
            → At
                (record {
                  sender = (pb_transmit_packet env l.sender l.seq_nr_tmp f 1024).1;
                  seq_nr_tmp = l.seq_nr_tmp + 1;
                  counterfec = c;
                })
                (n + 1)
                out
        sent_on c = record { state = with_number; number = next_number }

        skipped :
            (c : ℕ)
            → At
                (record { sender = l.sender; seq_nr_tmp = l.seq_nr_tmp + 1; counterfec = c })
                (n + 1)
                out
        skipped c = record { state = at_n.state; number = next_number }

  count_skip-At : (l : Loop) (m : ℕ) (out : List ℕ) → At l m out → At (count_skip l) m out
  unfolding count_skip
  count_skip-At l m out a = record { state = HasSent-same refl refl a.state; number = a.number }

  -- Where the loop stands in its block: DATA and FEC are sent in turn until the FEC are used up.
  abbrev Places : ℕ → List (List ℕ) → List (List ℕ) → Type 0
  Places n ds fs =
      ((n + length ds + length fs) % 12 ≡ 0)
      × (length ds + length fs ≤ 12)
      × ((length ds ≡ length fs + 4) ⊎ ((length fs ≡ 0) × (length ds ≤ 4)))

  -- The whole loop hands over the payloads of the data blocks, in order, and nothing else.
  pub send_interleaved-At :
      (ds fs : List (List ℕ)) (l : Loop) (n : ℕ) (out : List ℕ)
      → All IsLong ds
      → All IsLong fs
      → Places n ds fs
      → n + length ds + length fs ≤ 2 ^ 32
      → At l n out
      → HasSent (send_interleaved env 1024 ds fs l).sender (out ++ sent_payloads ds)
  unfolding send_interleaved
  send_interleaved-At [] [] l n out lds lfs pl hn a = rw append-nil a.state
  send_interleaved-At [] (f ∷ fs) l n out lds lfs pl hn a = absurd (omega arith)
  send_interleaved-At (d ∷ ds) [] l n out lds lfs pl hn a =
      rw (append_assoc out (block_payload (take 1024 d)) (sent_payloads ds)) at (
        send_interleaved-At ds [] _ (n + 1) (out ++ block_payload (take 1024 d)) lds.1 lfs
          (ground arith) (omega arith)
          (count_skip-At _ _ _ (send_data-At l n out a (omega arith) d lds.0 (ground arith))))
  send_interleaved-At (d ∷ ds) (f ∷ fs) l n out lds lfs pl hn a =
      rw (append_assoc out (block_payload (take 1024 d)) (sent_payloads ds)) at (
        send_interleaved-At ds fs _ (n + 1 + 1) (out ++ block_payload (take 1024 d)) lds.1 lfs.1
          (ground arith) (omega arith)
          (count_skip-At _ _ _ (
            send_fec-At _ (n + 1) _ (send_data-At l n out a (omega arith) d lds.0 (ground arith))
              (omega arith) f lfs.0 (ground arith))))
