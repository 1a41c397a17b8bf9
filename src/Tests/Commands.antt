-- ===== src/Tests/Commands.antt =====
-- A command from the joystick's program to the robot, and one that comes twice.
use rhex_service.Base.{if◌then◌else◌, get_or, ◌==◌, none}
use rhex_service.Base.{
  ℕ, ◌≡◌, ◌<◌, refl, List, [], ◌∷◌, ◌++◌, arith, true, false, none, some, length, replicate, All,
  get_or, zero, suc,
}
use rhex_service.Base.Int.{pos, negsuc, pos_part}
use rhex_service.Wfb.Io.{Frame, Env}
use rhex_service.Wfb.TxPacket.{init_cards}
use rhex_service.Wfb.TxPacket.Start.{init_cards-AreHeaded}
use rhex_service.Wfb.RxPacket.{MonitorInterface, RxPacket, RxEnv, returned, read_frame}
use rhex_service.Wfb.RxPacket.Delivery.{captured}
use rhex_service.Ground.CommandsTx.{CommandsTx, tx_rc_cycle}
use rhex_service.Air.Commands.{Commands, rc_cycle, rc_cycles}
use rhex_service.Air.Commands.Received.{Joystick, joystick_bytes, wanted, command_delivered}
use rhex_service.Air.Commands.Lost.{rc_cycles_lost}

abbrev quotient : ℕ → ℕ → ℕ
quotient a b = a

abbrev stick : Joystick
stick = record {
  steering = 1400;
  speed = 1600;
  others = 1500 ∷ 1500 ∷ [];
  low_buttons = true ∷ replicate 15 false;
  high_buttons = replicate 16 false;
}

abbrev radio : List ℕ
radio = 0 ∷ 0 ∷ 8 ∷ 0 ∷ 32 ∷ 0 ∷ 0 ∷ 216 ∷ []

abbrev tx_env : Env
tx_env = record { monotime = λ n. n; write_fails = λ n. false; fec_encode = λ size blocks n. [] }

abbrev rx_env : RxEnv
rx_env = record {
  select = λ fds nfds. pos 1;
  is_set = λ fd. true;
  pcap_next = λ i. rhex_service.Wfb.RxPacket.pcap_no_packet;
  radiotap = λ frame len. if get_or frame 0 1 == 0 then some ((5, 216) ∷ []) else none;
}

abbrev sender : CommandsTx
sender = record {
  seqno = 7;
  tx = record { sock = 3 ∷ []; type = 1 ∷ []; count = 1; pcnt = 0 };
  cards = init_cards 30 false;
}

abbrev iface : MonitorInterface
iface = record { selectable_fd = 3; n80211_header_length = 0 }

abbrev fresh : RxPacket
fresh = record { adapter = 0; type = 0; dbm = pos 0; bytes = 0; content = replicate 1500 0 }

abbrev no_commands : Commands ℕ
no_commands = record {
  last_seqno = 0;
  rc_data = record { speed = 0; steering = 0; btn = replicate 32 false };
  rc_status = record {
    lost_packet_cnt = 0;
    received_packet_cnt = 0;
    signal_dbm = replicate 4 (pos 0);
  };
  commands = [];
  statuses = [];
}

abbrev fifth : RxPacket
fifth = record {
  adapter = 1;
  type = 1;
  dbm = negsuc 60;
  bytes = 22;
  content = 5 ∷ replicate 1499 0;
}

types_known : (k : ℕ) → get_or sender.tx.type k 0 < 3
types_known zero = omega arith
types_known (suc k) = omega arith

command_delivered_example :
    (t' : CommandsTx) × (new : List Frame) × (tx_rc_cycle tx_env
        (some (joystick_bytes stick))
        sender
      ≡ some t')
    × (t'.seqno ≡ 8)
    × (t'.cards.frames ≡ sender.cards.frames ++ new)
    × (length new ≡ 1)
    × All
        (λ f.
          (iface' : MonitorInterface) × (rx' : RxPacket) × (read_frame rx_env
              (length (captured radio f.bytes))
              (captured radio f.bytes)
              iface
              fresh
            ≡ returned 1 iface' rx')
          × ((rc_cycle pos_part quotient (some rx') no_commands).commands
              ≡ no_commands.commands ++ (wanted pos_part quotient stick ∷ [])))
        new
command_delivered_example =
    command_delivered pos_part quotient tx_env rx_env 30 false sender stick radio iface fresh
      no_commands (λ n. refl) types_known (omega arith)
      (record {
        steering = omega arith;
        speed = omega arith;
        others = refl;
        low = refl;
        high = refl;
      })
      (init_cards-AreHeaded 30 false) refl (omega arith) (omega arith)
      (λ rest. ((5, 216) ∷ [], refl)) refl refl

rc_cycles_lost_example :
    ((rc_cycles pos_part quotient (some fifth ∷ none ∷ some fifth ∷ []) no_commands).last_seqno ≡ 0)
    × ((rc_cycles pos_part quotient
          (some fifth ∷ none ∷ some fifth ∷ [])
          no_commands).rc_status.lost_packet_cnt
        ≡ 10)
rc_cycles_lost_example =
    rc_cycles_lost pos_part quotient (some fifth ∷ none ∷ some fifth ∷ []) no_commands 0 refl refl
