-- ===== src/Wfb/TxRawsock/Header.antt =====
-- `packet_header_init80211N` and `packet_header_init` of libwfb/wfb_tx_rawsock.c. The static arrays
-- are written before each use, so they are values here; `none` is exit(1).
pub mod Sizes
use rhex_service.Base.{ℕ, ◌+◌, ◌*◌, ◌%◌, ◌≤◌, ◌≡◌, refl, sym, ap, ◌∙◌, List, [], ◌∷◌, ◌++◌, arith}
use rhex_service.Base.{
  Bool, true, false, if◌then◌else◌, ◌==◌, Option, none, some, length, drop, append_assoc,
}
use rhex_service.Base.{memcpy, length-memcpy, memcpy_front}

abbrev pub mcs_header : ℕ → ℕ → ℕ → List ℕ
mcs_header known flags index = 0 ∷ 0 ∷ 13 ∷ 0 ∷ 0 ∷ 128 ∷ 8 ∷ 0 ∷ 8 ∷ 0 ∷ known ∷ flags ∷ index ∷ []

abbrev pub radiotap_header : ℕ → List ℕ
radiotap_header datarate = 0 ∷ 0 ∷ 12 ∷ 0 ∷ 4 ∷ 128 ∷ 0 ∷ 0 ∷ datarate ∷ 0 ∷ 0 ∷ 0 ∷ []

abbrev pub ieee_header_data_short : ℕ → List ℕ
ieee_header_data_short port = 8 ∷ 1 ∷ 0 ∷ 0 ∷ port ∷ []

abbrev pub ieee_header_data : ℕ → List ℕ
ieee_header_data port =
    8 ∷ 2 ∷ 0 ∷ 0 ∷ port ∷ 0 ∷ 0 ∷ 0 ∷ 0 ∷ 0 ∷ 19 ∷ 34 ∷ 51 ∷ 68 ∷ 85 ∷ 102 ∷ 19 ∷ 34 ∷ 51 ∷ 68 ∷ 85
    ∷ 102 ∷ 0 ∷ 0 ∷ []

abbrev pub ieee_header_rts : ℕ → List ℕ
ieee_header_rts port = 180 ∷ 1 ∷ 0 ∷ 0 ∷ port ∷ []

-- The byte of the port: odd, and cut to eight bits.
abbrev pub port_encoded : ℕ → ℕ
port_encoded port = (port * 2 + 1) % 256

-- The switch on the frame type.
unfoldable pub ieee_header : ℕ → ℕ → Option (List ℕ)
ieee_header type port =
    if type == 0
    then some (ieee_header_data_short (port_encoded port))
    else if type == 1
    then some (ieee_header_data (port_encoded port))
    else if type == 2
    then some (ieee_header_rts (port_encoded port))
    else none

-- The switch on the rate.
unfoldable pub datarate : ℕ → Option ℕ
datarate rate =
    if rate == 1
    then some 2
    else if rate == 2
    then some 4
    else if rate == 5
    then some 11
    else if rate == 6
    then some 12
    else if rate == 11
    then some 22
    else if rate == 12
    then some 24
    else if rate == 18
    then some 36
    else if rate == 24
    then some 48
    else if rate == 36
    then some 72
    else if rate == 48
    then some 96
    else none

-- The size that is returned and the buffer with the header in it.
unfoldable pub packet_header_init : List ℕ → ℕ → ℕ → ℕ → Option (ℕ × List ℕ)
packet_header_init buf type rate port = elim (datarate rate) [
  | none ↦ none
  | some d ↦ elim (ieee_header type port) [
    | none ↦ none
    | some ieee ↦
        let radio = radiotap_header d in
        some (length radio + length ieee, memcpy (memcpy buf 0 radio) (length radio) ieee)
  ]
]

unfoldable pub packet_header_init80211_n : List ℕ → List ℕ → ℕ → ℕ → Option (ℕ × List ℕ)
packet_header_init80211_n buf radio type port = elim (ieee_header type port) [
  | none ↦ none
  | some ieee ↦ some (length ieee, memcpy (memcpy buf 0 radio) (length radio) ieee)
]
