-- ===== src/Tests/RxPacket.antt =====
-- The packet receiver on a frame of the packet sender.
use rhex_service.Base.{if◌then◌else◌, get_or, ◌==◌, none}
use rhex_service.Base.{
  ℕ, ◌≡◌, ◌⊎◌, refl, List, [], ◌∷◌, ◌++◌, arith, false, true, some, length, replicate, All, ◌<◌,
  zero, suc, get_or,
}
use rhex_service.Base.Int.{pos, negsuc, ◌≤ℤ◌}
use rhex_service.Wfb.Io.{Frame, Env}
use rhex_service.Wfb.TxPacket.{PacketTx, Cards, init_cards, wfb_tx_send}
use rhex_service.Wfb.TxPacket.Start.{init_cards-AreHeaded}
use rhex_service.Wfb.RxPacket.{
  MonitorInterface, RxPacket, WfbRx, RxEnv, pcap_packet, returned, to_int8, best_dbm, read_frame,
  wfb_rx_packet,
}
use rhex_service.Wfb.RxPacket.Bounds.{
  IsSignal, Some, AreKept, best_dbm_strongest, wfb_rx_packet-AreKept,
}
use rhex_service.Wfb.RxPacket.Delivery.{captured}
use rhex_service.Ground.TelemetryRx.Sent.{Carries, telemetry_delivered}

abbrev radio : List ℕ
radio = 0 ∷ 0 ∷ 8 ∷ 0 ∷ 32 ∷ 0 ∷ 0 ∷ 216 ∷ []

abbrev signal : List (ℕ × ℕ)
signal = (5, 216) ∷ (11, 0) ∷ (5, 220) ∷ []

abbrev rx_env : RxEnv
rx_env = record {
  select = λ fds nfds. pos 1;
  is_set = λ fd. true;
  pcap_next = λ i. pcap_packet 15 (radio ++ (180 ∷ 1 ∷ 0 ∷ 0 ∷ 61 ∷ 7 ∷ 8 ∷ []));
  radiotap = λ frame len. if get_or frame 0 1 == 0 then some signal else none;
}

abbrev one_interface : WfbRx
one_interface = record {
  iface = record { selectable_fd = 3; n80211_header_length = 0 } ∷ [];
  type = 0 ∷ [];
  count = 1;
}

abbrev fresh : RxPacket
fresh = record { adapter = 0; type = 0; dbm = pos 0; bytes = 0; content = replicate 1500 0 }

abbrev tx : PacketTx
tx = record { sock = 3 ∷ 4 ∷ []; type = 0 ∷ 2 ∷ []; count = 2; pcnt = 0 }

abbrev tx_env : Env
tx_env = record { monotime = λ n. n; write_fails = λ n. false; fec_encode = λ size blocks n. [] }

types_known : (j : ℕ) → get_or tx.type j 0 < 3
types_known zero = omega arith
types_known (suc zero) = omega arith
types_known (suc (suc j)) = omega arith

best_dbm_strongest_example :
    All (λ a. IsSignal a → to_int8 a.1 ≤ℤ best_dbm (negsuc 126) signal) signal
    × ((best_dbm (negsuc 126) signal ≡ negsuc 126)
        ⊎ Some (λ a. IsSignal a × (best_dbm (negsuc 126) signal ≡ to_int8 a.1)) signal)
best_dbm_strongest_example = best_dbm_strongest signal

wfb_rx_packet-AreKept_example :
    AreKept one_interface fresh (wfb_rx_packet rx_env one_interface fresh)
wfb_rx_packet-AreKept_example = wfb_rx_packet-AreKept rx_env one_interface fresh refl (omega arith)

telemetry_delivered_example :
    (cards' : Cards) × (new : List Frame) × (wfb_tx_send tx_env tx 70000
        (7 ∷ 8 ∷ 9 ∷ [])
        3
        (init_cards 30 true)
      ≡ some (record tx { pcnt = 1 }, cards'))
    × (cards'.frames ≡ (init_cards 30 true).frames ++ new)
    × (length new ≡ 2)
    × All
        (λ f.
          (iface' : MonitorInterface) × (rx' : RxPacket) × (read_frame rx_env
              (length (captured radio f.bytes))
              (captured radio f.bytes)
              (record { selectable_fd = 3; n80211_header_length = 0 })
              fresh
            ≡ returned 1 iface' rx')
          × Carries 70000 (7 ∷ 8 ∷ 9 ∷ []) rx')
        new
telemetry_delivered_example =
    telemetry_delivered tx_env rx_env 30 true tx 70000 (7 ∷ 8 ∷ 9 ∷ []) (init_cards 30 true) radio
      (record { selectable_fd = 3; n80211_header_length = 0 }) fresh (λ n. refl) types_known
      (omega arith) (omega arith) (init_cards-AreHeaded 30 true) refl (omega arith) (omega arith)
      (λ rest. (signal, refl)) refl
