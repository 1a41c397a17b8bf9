-- ===== src/Wfb/RxPacket/Start.antt =====
-- wfb_rx_init: the cards are opened one after the other, and their drivers looked up.
use rhex_service.Base.{ℕ, ◌+◌, ◌*◌, List, [], ◌∷◌, Bool, true, false, not, ◌&&◌, Option, none, some}
use rhex_service.Base.{if◌then◌else◌, ◌==◌, get_or, set, take}
use rhex_service.Base.Int.{ℤ, pos, negsuc}
use rhex_service.Wfb.RxPacket.{MonitorInterface, WfbRx, no_interface}

-- The system's answers for one card: the lines of its uevent file, if that can be opened, and what
-- libpcap does; pcap_compile() gets a filter for the encoded port.
pub record CardFiles : Type 0 where
  pub uevent : Option (List (List ℕ))
  pub pcap_open_live : Bool
  pub datalink_is_radio : Bool
  pub pcap_compile : ℕ → Bool
  pub selectable_fd : ℕ

-- The end of the process, or the result with the new state.
pub data InitRead : Type 0 where
  init_exited : ℕ → InitRead
  init_returned : ℤ → WfbRx → InitRead

-- "DRIVER=ath9k_htc"
abbrev pub atheros_line : List ℕ
atheros_line =
    68 ∷ 82 ∷ 73 ∷ 86 ∷ 69 ∷ 82 ∷ 61 ∷ 97 ∷ 116 ∷ 104 ∷ 57 ∷ 107 ∷ 95 ∷ 104 ∷ 116 ∷ 99 ∷ []

unfoldable pub bytes_equal : List ℕ → List ℕ → Bool
bytes_equal [] [] = true
bytes_equal [] (b ∷ bs) = false
bytes_equal (a ∷ xs) [] = false
bytes_equal (a ∷ xs) (b ∷ bs) = (a == b) && bytes_equal xs bs

-- `none` is exit(1).
unfoldable pub open_and_configure_interface :
    CardFiles → MonitorInterface → ℕ → Option MonitorInterface
open_and_configure_interface files iface port =
    let port_encoded = port * 2 + 1 in
    if not files.pcap_open_live
    then none
    else if not files.datalink_is_radio
    then none
    else if not (files.pcap_compile port_encoded)
    then none
    else some (record iface { selectable_fd = files.selectable_fd })

-- The second line of the file.
abbrev pub driver_line : Option (List (List ℕ)) → Option (List ℕ)
driver_line none = none
driver_line (some []) = none
driver_line (some (first ∷ [])) = none
driver_line (some (first ∷ line ∷ lines)) = some line

-- 0 is an Atheros card, 1 any other.
abbrev pub card_type : List ℕ → ℕ
card_type line = if bytes_equal (take 16 line) atheros_line then 0 else 1

unfoldable pub init_interfaces : List CardFiles → ℕ → WfbRx → InitRead
init_interfaces [] port w = init_returned (pos 0) w
init_interfaces (files ∷ rest) port w = elim (driver_line files.uevent) [
  | none ↦ init_returned (negsuc 0) w
  | some line ↦
      elim (open_and_configure_interface files (get_or w.iface w.count no_interface) port) [
        | none ↦ init_exited 1
        | some iface ↦ init_interfaces rest port (record {
          iface = set w.iface w.count iface;
          type = set w.type w.count (card_type line);
          count = w.count + 1;
        })
      ]
]

-- `cards` is the list of the cards, if it can be had.
unfoldable pub wfb_rx_init : Option (List CardFiles) → WfbRx → ℕ → InitRead
wfb_rx_init none w port = init_returned (negsuc 0) w
wfb_rx_init (some cards) w port = init_interfaces cards port (record w { count = 0 })
