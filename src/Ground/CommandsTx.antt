-- ===== src/Ground/CommandsTx.antt =====
-- rhex_ground/rhex_tx_rc.c: a cycle of `rhex_tx_rc_main`, which sends on what the joystick's program
-- sends.
use rhex_service.Base.{ℕ, ◌+◌, ◌%◌, ◌^◌, List, Option, none, some, length}
use rhex_service.Wfb.Io.{Env}
use rhex_service.Wfb.TxPacket.{PacketTx, Cards, wfb_tx_send}

pub record CommandsTx : Type 0 where
  pub seqno : ℕ
  pub tx : PacketTx
  pub cards : Cards

-- `received` is what recvfrom() gives, at most 512 bytes, when select() says that there is
-- something; `none` is exit(1).
unfoldable pub tx_rc_cycle : Env → Option (List ℕ) → CommandsTx → Option CommandsTx
tx_rc_cycle env none t = some t
tx_rc_cycle env (some bytes) t = elim (wfb_tx_send env t.tx t.seqno bytes (length bytes) t.cards) [
  | none ↦ none
  | some sent ↦ some (record { seqno = (t.seqno + 1) % 2 ^ 32; tx = sent.0; cards = sent.1 })
]
