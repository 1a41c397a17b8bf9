-- ===== src/Wfb/RxRawsock/Interface.antt =====
-- The part of `wfb_rx_stream_interface` of libwfb/wfb_rx_rawsock.c that finds the payload of a
-- captured frame.
pub mod Payload
use rhex_service.Base.{ℕ, ◌+◌, ◌-◌, ◌*◌, ◌%◌, ◌^◌, List, Bool, true, false, Option, none, some}
use rhex_service.Base.{if◌then◌else◌, ltb, ◌==◌, drop, get_or}
use rhex_service.Wfb.RxRawsock.{PayloadData}

-- The length of the 802.11 header, by its second byte; other frames keep the last one.
unfoldable pub header_len80211 : ℕ → ℕ → ℕ
header_len80211 frame_type last =
    if frame_type == 1 then 5 else if frame_type == 2 then 24 else last

-- The length that the radiotap header gives for itself.
abbrev pub radiotap_len : List ℕ → ℕ
radiotap_len frame = get_or frame 2 0 + 256 * get_or frame 3 0

-- The payload of a frame of `len` bytes and the new header length; `none` is exit(1). `parsed` says
-- whether ieee80211_radiotap_iterator_init() accepts the frame.
unfoldable pub frame_payload : Bool → ℕ → List ℕ → ℕ → Option (ℕ × PayloadData)
frame_payload parsed last frame len =
    let radio : ℕ = radiotap_len frame in
    let n : ℕ = header_len80211 (get_or frame (radio + 1) 0) last in
    if ltb len ((radio + n) % 2 ^ 32)
    then none
    else if parsed
    then some
        (n, record { bytes = drop (radio + n) frame; size = len - (radio + n); crc_ok = true })
    else none
