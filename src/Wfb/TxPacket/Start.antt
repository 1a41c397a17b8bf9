-- ===== src/Wfb/TxPacket/Start.antt =====
-- The packet buffers that `wfb_tx_init` leaves.
use rhex_service.Base.{ℕ, ◌≤◌, Bool, true, false, arith, length}
use rhex_service.Wfb.TxPacket.{headers_of, init_cards}
use rhex_service.Wfb.TxPacket.Filling.{init_card-IsHeaded}
use rhex_service.Wfb.TxPacket.Frames.{AreHeaded}

atheros_short : (port : ℕ) (use_cts : Bool) → length (headers_of port use_cts 1) ≤ 40
atheros_short port true = omega arith
atheros_short port false = omega arith

-- For any port, with CTS protection or without, each kind of radio has its own header in front of
-- its packet buffer of 402 bytes.
pub init_cards-AreHeaded :
    (port : ℕ) (use_cts : Bool) → AreHeaded (headers_of port use_cts) (init_cards port use_cts)
unfolding init_cards
init_cards-AreHeaded port use_cts = record {
  ralink = init_card-IsHeaded (headers_of port use_cts 0) (omega arith);
  atheros = init_card-IsHeaded (headers_of port use_cts 1) (atheros_short port use_cts);
  realtek = init_card-IsHeaded (headers_of port use_cts 2) (omega arith);
}
