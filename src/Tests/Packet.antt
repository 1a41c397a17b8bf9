-- ===== src/Tests/Packet.antt =====
-- The packet sender on two adapters of different kinds.
use rhex_service.Base.{
  ℕ, ◌<◌, ◌≡◌, refl, List, [], ◌∷◌, ◌++◌, arith, false, some, le32, get_or, zero, suc, length,
}
use rhex_service.Wfb.Io.{Frame, Env}
use rhex_service.Wfb.TxPacket.{PacketTx, Cards, le16, wfb_tx_send, headers_of, init_cards}
use rhex_service.Wfb.TxPacket.Frames.{AreHeaded, AreFrames, wfb_tx_send_lem}
use rhex_service.Wfb.TxPacket.Start.{init_cards-AreHeaded}

abbrev two_adapters : PacketTx
two_adapters = record {
  sock = 3 ∷ 4 ∷ 0 ∷ 0 ∷ [];
  type = 0 ∷ 2 ∷ 0 ∷ 0 ∷ [];
  count = 2;
  pcnt = 127;
}

abbrev working : Env
working = record { monotime = λ n. n; write_fails = λ n. false; fec_encode = λ size blocks n. [] }

types_known : (j : ℕ) → get_or two_adapters.type j 0 < 3
types_known zero = omega arith
types_known (suc zero) = omega arith
types_known (suc (suc zero)) = omega arith
types_known (suc (suc (suc zero))) = omega arith
types_known (suc (suc (suc (suc j)))) = omega arith

init_cards-AreHeaded_example : AreHeaded (headers_of 5 false) (init_cards 5 false)
init_cards-AreHeaded_example = init_cards-AreHeaded 5 false

wfb_tx_send_lem_example :
    (cards' : Cards) × (new : List Frame) × (wfb_tx_send working two_adapters 70000
        (7 ∷ 8 ∷ 9 ∷ [])
        3
        (init_cards 5 false)
      ≡ some (record two_adapters { pcnt = 128 }, cards'))
    × (cards'.frames ≡ (init_cards 5 false).frames ++ new)
    × (length new ≡ 2)
    × AreFrames (headers_of 5 false) ((le32 70000 ++ le16 3) ++ (7 ∷ 8 ∷ 9 ∷ [])) two_adapters 0 new
    × AreHeaded (headers_of 5 false) cards'
wfb_tx_send_lem_example =
    wfb_tx_send_lem (headers_of 5 false) working two_adapters 70000 (7 ∷ 8 ∷ 9 ∷ []) 3
      (init_cards 5 false) (λ n. refl) types_known refl (omega arith) (init_cards-AreHeaded 5 false)
