-- ===== src/Wfb/RxPacket.antt =====
-- The packet receiver, libwfb/wfb_rx.c. libpcap, select() and the radiotap parser are parameters.
pub mod Start
pub mod Bounds
pub mod Delivery
use rhex_service.Base.{
  ℕ, zero, suc, ◌+◌, ◌-◌, ◌*◌, ◌%◌, ◌^◌, List, [], ◌∷◌, Bool, true, false, ◌&&◌, Option, none, some,
}
use rhex_service.Base.{if◌then◌else◌, ltb, ◌==◌, get_or, set, memcpy, slice}
use rhex_service.Base.Int.{ℤ, pos, negsuc, ltb_ℤ}

-- monitor_interface_t
pub record MonitorInterface : Type 0 where
  pub selectable_fd : ℕ
  pub n80211_header_length : ℕ

-- wfb_rx_t
pub record WfbRx : Type 0 where
  pub iface : List MonitorInterface
  pub type : List ℕ
  pub count : ℕ

-- wfb_rx_packet_t; `content` is its array `data`.
pub record RxPacket : Type 0 where
  pub adapter : ℕ
  pub type : ℕ
  pub dbm : ℤ
  pub bytes : ℕ
  pub content : List ℕ

-- What pcap_next_ex() gives: an error, and whether it is "The interface went down"; no packet; or a
-- packet with its length and its bytes.
pub data PcapNext : Type 0 where
  pcap_error : Bool → PcapNext
  pcap_no_packet : PcapNext
  pcap_packet : ℕ → List ℕ → PcapNext

-- The radiotap parser gives no iterator, or the arguments: their number and their first byte.
pub record RxEnv : Type 0 where
  pub select : List ℕ → ℕ → ℤ
  pub is_set : ℕ → Bool
  pub pcap_next : ℕ → PcapNext
  pub radiotap : List ℕ → ℕ → Option (List (ℕ × ℕ))

-- The end of the process, or the result with what was changed.
pub data InterfaceRead : Type 0 where
  exited : ℕ → InterfaceRead
  returned : ℕ → MonitorInterface → RxPacket → InterfaceRead

pub data PacketRead : Type 0 where
  packet_exited : ℕ → PacketRead
  packet_returned : ℤ → WfbRx → RxPacket → PacketRead

abbrev pub max_mtu : ℕ
max_mtu = 1500

abbrev pub radiotap_dbm_antsignal : ℕ
radiotap_dbm_antsignal = 5

abbrev pub no_interface : MonitorInterface
no_interface = record { selectable_fd = 0; n80211_header_length = 0 }

-- The switch on the second byte of the 802.11 header; other frames keep the last values.
unfoldable pub header_length : ℕ → ℕ → ℕ
header_length frame_type last =
    if frame_type == 191
    then 4
    else if frame_type == 1
    then 5
    else if frame_type == 2
    then 24
    else last

unfoldable pub packet_type : ℕ → ℕ → ℕ
packet_type frame_type last =
    if frame_type == 191
    then 0
    else if frame_type == 1
    then 1
    else if frame_type == 2
    then 1
    else last

-- The length that the radiotap header gives for itself.
abbrev pub radiotap_length : List ℕ → ℕ
radiotap_length frame = get_or frame 2 0 + 256 * get_or frame 3 0

-- The cast of a byte.
abbrev pub to_int8 : ℕ → ℤ
to_int8 n = if ltb n 128 then pos n else negsuc (255 - n)

-- One argument of the radiotap header.
unfoldable pub better_dbm : ℤ → ℕ × ℕ → ℤ
better_dbm dbm (index, arg) =
    if index == radiotap_dbm_antsignal
    then (if ltb_ℤ (to_int8 arg) (pos 0) && ltb_ℤ (negsuc 125) (to_int8 arg)
        then if ltb_ℤ dbm (to_int8 arg) then to_int8 arg else dbm
        else dbm)
    else dbm

unfoldable pub best_dbm : ℤ → List (ℕ × ℕ) → ℤ
best_dbm dbm [] = dbm
best_dbm dbm (a ∷ args) = best_dbm (better_dbm dbm a) args

module _ (env : RxEnv) where
  -- What lies behind a radiotap header of `radio` bytes and an 802.11 header of `n` bytes.
  unfoldable pub read_behind : ℕ → ℕ → ℕ → List ℕ → MonitorInterface → RxPacket → InterfaceRead
  read_behind radio n len frame iface rx =
      let left = len - (radio + n) in
      let bytes = if ltb max_mtu left then max_mtu else left in
      if ltb len ((radio + n) % 2 ^ 32)
      then exited 1
      else if ltb len (radio + n)
      then exited 1
      else elim (env.radiotap frame len) [
        | none ↦ exited 1
        | some args ↦
            returned 1 (record iface { n80211_header_length = n })
              (record rx {
                type = packet_type (get_or frame (radio + 1) 0) rx.type;
                dbm = best_dbm (negsuc 126) args;
                bytes = bytes;
                content = memcpy rx.content 0 (slice frame (radio + n) bytes);
              })
      ]

  -- A captured frame of `len` bytes.
  unfoldable pub read_frame : ℕ → List ℕ → MonitorInterface → RxPacket → InterfaceRead
  read_frame len frame iface rx =
      let radio = radiotap_length frame in
      let n = header_length (get_or frame (radio + 1) 0) iface.n80211_header_length in
      read_behind radio n len frame iface rx

  unfoldable pub read_captured : PcapNext → MonitorInterface → RxPacket → InterfaceRead
  read_captured (pcap_error true) iface rx = exited 9
  read_captured (pcap_error false) iface rx = exited 2
  read_captured pcap_no_packet iface rx = returned 1 iface rx
  read_captured (pcap_packet len frame) iface rx = read_frame len frame iface rx

  -- The interface with the number `i`.
  unfoldable pub wfb_rx_packet_interface : ℕ → MonitorInterface → RxPacket → InterfaceRead
  wfb_rx_packet_interface i iface rx = read_captured (env.pcap_next i) iface rx

  -- The descriptors of the interfaces, and the greatest one.
  unfoldable pub read_set : ℕ → ℕ → WfbRx → List ℕ
  read_set zero i w = []
  read_set (suc n) i w = (get_or w.iface i no_interface).selectable_fd ∷ read_set n (i + 1) w

  unfoldable pub greatest : ℕ → List ℕ → ℕ
  greatest nfds [] = nfds
  greatest nfds (fd ∷ fds) = greatest (if ltb nfds fd then fd else nfds) fds

  -- The loop that looks for a descriptor that is set; `n` interfaces are left from `i` on.
  unfoldable pub read_first : ℤ → ℕ → ℕ → WfbRx → RxPacket → PacketRead
  read_first result zero i w rx = packet_returned result w rx
  read_first result (suc n) i w rx =
      let rest = read_first result n (i + 1) w rx in
      let iface = get_or w.iface i no_interface in
      if env.is_set iface.selectable_fd
      then (elim (wfb_rx_packet_interface i iface rx) [
        | exited code ↦ packet_exited code
        | returned r iface' rx' ↦
            packet_returned (pos r) (record w { iface = set w.iface i iface' })
              (record rx' { adapter = i })
      ])
      else rest

  unfoldable pub wfb_rx_packet : WfbRx → RxPacket → PacketRead
  wfb_rx_packet w rx =
      let fds = read_set w.count 0 w in
      let result = env.select fds (greatest 0 fds + 1) in
      if ltb_ℤ (pos 0) result then read_first result w.count 0 w rx else packet_returned result w rx
