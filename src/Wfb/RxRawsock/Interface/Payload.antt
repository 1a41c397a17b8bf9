-- ===== src/Wfb/RxRawsock/Interface/Payload.antt =====
-- The payload that is found in a frame with one of the sender's 802.11 headers.
use rhex_service.Base.{
  ℕ, ◌+◌, ◌*◌, ◌%◌, ◌^◌, ◌≤◌, ◌<◌, ◌≡◌, refl, sym, ap₂, ◌∙◌, arith, List, ◌++◌, append_assoc, true,
  false, some, some_inj, subst, ◌==◌, Bool-cases, inl, inr,
}
use rhex_service.Base.{
  length, drop, get_or, le32, length-append, drop-append, get_or-append_before,
  get_or-append_behind, ltb, le→ltb,
}
use rhex_service.Wfb.TxRawsock.Header.{
  ieee_header, ieee_header_data_short, ieee_header_data, ieee_header_rts, port_encoded,
}
use rhex_service.Wfb.TxRawsock.Header.Sizes.{length-ieee_header}
use rhex_service.Wfb.RxRawsock.Receive.Steps.{packet_of}
use rhex_service.Wfb.RxRawsock.Interface.{header_len80211, radiotap_len, frame_payload}

-- The second byte of each header gives the header's length.
header_len-ieee_header :
    (type port last : ℕ) (ieee rest : List ℕ)
    → ieee_header type port ≡ some ieee
    → header_len80211 (get_or (ieee ++ rest) 1 0) last ≡ length ieee
unfolding ieee_header header_len80211
header_len-ieee_header type port last ieee rest e = elim (Bool-cases (type == 0)) [
  | inl zero' ↦
      of_header (ieee_header_data_short (port_encoded port)) (rw (ieee_header, zero') at e) refl
  | inr more ↦ elim (Bool-cases (type == 1)) [
    | inl one ↦
        of_header (ieee_header_data (port_encoded port)) (rw (ieee_header, more, one) at e) refl
    | inr two ↦ elim (Bool-cases (type == 2)) [
      | inl yes' ↦
          of_header (ieee_header_rts (port_encoded port)) (rw (ieee_header, more, two, yes') at e)
            refl
      | inr none' ↦ absurd (ground arith)
    ]
  ]
]
  where
    of_header :
        (h : List ℕ)
        → some h ≡ some ieee
        → header_len80211 (get_or (h ++ rest) 1 0) last ≡ length h
        → header_len80211 (get_or (ieee ++ rest) 1 0) last ≡ length ieee
    of_header h same known =
        subst (λ i. header_len80211 (get_or (i ++ rest) 1 0) last ≡ length i) (some_inj same) known

-- In a frame that the radiotap parser accepts, with a radiotap header of 4 to 2^16 - 1 bytes that
-- gives its own length, one of the 802.11 headers that the sender chooses from, a sequence number
-- and a packet, the payload that is found is the sequence number with the packet, whatever frame
-- came before.
pub frame_payload_lem :
    (last type port b k : ℕ) (radio ieee x : List ℕ)
    → radiotap_len radio ≡ length radio
    → 4 ≤ length radio
    → length radio < 2 ^ 16
    → ieee_header type port ≡ some ieee
    → let frame = radio ++ (ieee ++ (le32 (12 * b + k) ++ x)) in
      frame_payload true last frame (length frame) ≡ some (length ieee, packet_of b k x)
unfolding frame_payload
frame_payload_lem last type port b k radio ieee x own four small hi =
    rw
      (
        frame_payload,
        radio_same,
        byte_same,
        header_len-ieee_header type port last ieee payload hi,
        enough,
      )
      (ap₂ (λ m r. some (length ieee, record { bytes = r; size = m; crc_ok = true }))
        (omega (arith, lengths)) behind)
  where
    payload : List ℕ
    payload = le32 (12 * b + k) ++ x

    frame : List ℕ
    frame = radio ++ (ieee ++ payload)

    lengths : length frame ≡ length radio + (length ieee + (4 + length x))
    lengths = omega (
      arith,
      length-append radio (ieee ++ payload),
      length-append ieee payload,
      length-append (le32 (12 * b + k)) x,
    )

    radio_same : radiotap_len frame ≡ length radio
    radio_same =
        ap₂ (λ m n. m + 256 * n) (get_or-append_before radio (ieee ++ payload) 2 0 (omega arith))
          (get_or-append_before radio (ieee ++ payload) 3 0 (omega arith))
        ∙ own

    byte_same : get_or frame (length radio + 1) 0 ≡ get_or (ieee ++ payload) 1 0
    byte_same = get_or-append_behind radio (ieee ++ payload) 1 0

    enough : ltb (length frame) ((length radio + length ieee) % 2 ^ 32) ≡ false
    enough =
        le→ltb (length frame) ((length radio + length ieee) % 2 ^ 32)
          (omega (arith, lengths, length-ieee_header type port ieee hi))

    behind : drop (length radio + length ieee) frame ≡ payload
    behind =
        ap₂ drop (sym (length-append radio ieee)) (sym (append_assoc radio ieee payload))
        ∙ drop-append (radio ++ ieee) payload
