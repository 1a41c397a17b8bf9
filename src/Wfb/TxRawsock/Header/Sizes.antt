-- ===== src/Wfb/TxRawsock/Header/Sizes.antt =====
-- The size that the header functions return, against the header that they write.
use rhex_service.Base.{ℕ, ◌+◌, ◌≤◌, ◌≡◌, refl, ap, ◌∙◌, List, ◌++◌, arith}
use rhex_service.Base.{some, length, take}
use rhex_service.Base.{memcpy, length-memcpy, take-memcpy}
use rhex_service.Wfb.TxRawsock.Header.{
  mcs_header, radiotap_header, ieee_header, datarate, packet_header_init, packet_header_init80211_n,
}

-- The two parts of a header, copied one behind the other.
pub two_parts :
    (buf radio ieee : List ℕ)
    → length radio + length ieee ≤ length buf
    → take (length radio + length ieee) (memcpy (memcpy buf 0 radio) (length radio) ieee)
      ≡ radio ++ ieee
two_parts buf radio ieee h =
    take-memcpy (memcpy buf 0 radio) (length radio) ieee (omega (arith, length-memcpy buf 0 radio))
    ∙ ap (λ n. take n (memcpy buf 0 radio) ++ ieee) {x = length radio} {y = 0 + length radio}
        (omega arith)
    ∙ ap (λ t. t ++ ieee) (take-memcpy buf 0 radio (omega arith))

pub length-ieee_header :
    (type port : ℕ) (ieee : List ℕ) → ieee_header type port ≡ some ieee → length ieee ≤ 24
unfolding ieee_header
length-ieee_header type port ieee e = ground arith

-- For a rate and a type that the switches know, packet_header_init returns the size of what it
-- wrote: that many bytes of the buffer are the radiotap header and the 802.11 header, for a buffer
-- of at least 36 bytes.
pub packet_header_init_whole :
    (buf : List ℕ) (type rate port d : ℕ) (ieee : List ℕ)
    → 36 ≤ length buf
    → datarate rate ≡ some d
    → ieee_header type port ≡ some ieee
    → (size : ℕ) × (buf' : List ℕ) × (packet_header_init buf type rate port ≡ some (size, buf'))
      × (take size buf' ≡ radiotap_header d ++ ieee)
unfolding packet_header_init
packet_header_init_whole buf type rate port d ieee room hd hi = (
  length (radiotap_header d) + length ieee,
  memcpy (memcpy buf 0 (radiotap_header d)) (length (radiotap_header d)) ieee,
  rw (packet_header_init, hd, hi) refl,
  two_parts buf (radiotap_header d) ieee (omega (arith, length-ieee_header type port ieee hi)),
)

-- For a type that the switch knows, packet_header_init80211N writes the radiotap header and the
-- 802.11 header, but returns the size of the 802.11 header alone, 13 less than the size of the two,
-- for a buffer of at least 37 bytes.
pub packet_header_init80211_n_short :
    (buf : List ℕ) (known flags index type port : ℕ) (ieee : List ℕ)
    → 37 ≤ length buf
    → ieee_header type port ≡ some ieee
    → (size : ℕ) × (buf' : List ℕ) × (packet_header_init80211_n buf
          (mcs_header known flags index)
          type
          port
        ≡ some (size, buf'))
      × (take (13 + size) buf' ≡ mcs_header known flags index ++ ieee)
      × (size ≡ length ieee)
unfolding packet_header_init80211_n
packet_header_init80211_n_short buf known flags index type port ieee room hi = (
  length ieee,
  memcpy (memcpy buf 0 (mcs_header known flags index)) 13 ieee,
  rw (packet_header_init80211_n, hi) refl,
  two_parts buf (mcs_header known flags index) ieee
      (omega (arith, length-ieee_header type port ieee hi)),
  refl,
)
