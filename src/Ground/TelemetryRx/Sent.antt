-- ===== src/Ground/TelemetryRx/Sent.antt =====
-- Telemetry from the packet sender of the robot to the ground: wfb_tx_send and the packet receiver.
use rhex_service.Base.{◌%◌}
use rhex_service.Base.{
  ℕ, ◌+◌, ◌-◌, ◌*◌, ◌^◌, ◌≤◌, ◌<◌, ◌≡◌, refl, sym, ap, ap₂, ◌∙◌, arith, List, [], ◌∷◌, ◌++◌, Bool,
  false, some,
}
use rhex_service.Base.{
  length, take, drop, get_or, le32, le32_round, All, get_or-take, drop-take, length-append,
}
use rhex_service.Wfb.Io.{Frame, Env}
use rhex_service.Wfb.TxPacket.{PacketTx, Cards, le16, headers_of, wfb_tx_send}
use rhex_service.Wfb.TxPacket.Frames.{AreHeaded, AreFrames, wfb_tx_send_lem}
use rhex_service.Wfb.RxPacket.{
  MonitorInterface, RxPacket, RxEnv, returned, radiotap_length, read_frame,
}
use rhex_service.Wfb.RxPacket.Delivery.{captured, read_captured_frame}
use rhex_service.Ground.TelemetryRx.{seqnumber, data_length, packet_data}

-- The received packet has this sequence number and these data.
pub record Carries (seqno : ℕ) (bytes : List ℕ) (rx : RxPacket) : Type 0 where
  pub number : seqnumber rx ≡ seqno
  pub content : packet_data rx ≡ bytes

packet_read :
    (seqno : ℕ) (bytes : List ℕ) (rx : RxPacket)
    → seqno < 2 ^ 32
    → length bytes < 2 ^ 16
    → take (6 + length bytes) rx.content ≡ (le32 seqno ++ le16 (length bytes)) ++ bytes
    → Carries seqno bytes rx
packet_read seqno bytes rx small few e = record {
  number =
      ap₂ (λ a b. a + b)
        (ap₂ (λ a b. a + b) (ap₂ (λ a b. a + 256 * b) (byte 0 (omega arith)) (byte 1 (omega arith)))
          (ap (λ b. 65536 * b) (byte 2 (omega arith))))
        (ap (λ b. 16777216 * b) (byte 3 (omega arith)))
      ∙ le32_round seqno (le16 (length bytes) ++ bytes) small;
  content =
      ap (λ n. take n (drop 6 rx.content)) len_read
      ∙ ap (λ n. take n (drop 6 rx.content)) {x = length bytes} {y = 6 + length bytes - 6}
          (omega arith)
      ∙ sym (drop-take 6 (6 + length bytes) rx.content)
      ∙ ap (drop 6) e;
}
  where
    packet : List ℕ
    packet = (le32 seqno ++ le16 (length bytes)) ++ bytes

    byte : (i : ℕ) → i < 6 → get_or rx.content i 0 ≡ get_or packet i 0
    byte i h =
        sym (get_or-take (6 + length bytes) rx.content i 0 (omega arith)) ∙ ap (λ c. get_or c i 0) e

    len_read : data_length rx ≡ length bytes
    len_read = ap₂ (λ a b. a + 256 * b) (byte 4 (omega arith)) (byte 5 (omega arith)) ∙ omega arith

-- A packet of at most 338 bytes with a sequence number below 2^32, sent while writes do not fail
-- and the types of the adapters are known: the call succeeds and appends one frame for each
-- adapter, and from each of them, behind a radiotap header of 4 to 2^16 - 1 bytes in place of the
-- sender's, which gives its own length and which the parser accepts whatever is behind it, the
-- receiver takes a packet in which the ground finds the sequence number and the data.
pub telemetry_delivered :
    (env : Env) (rx_env : RxEnv) (port : ℕ) (use_cts : Bool) (tx : PacketTx) (seqno : ℕ)
    (bytes : List ℕ) (cards : Cards) (radio : List ℕ) (iface : MonitorInterface) (rx : RxPacket)
    → ((n : ℕ) → env.write_fails n ≡ false)
    → ((j : ℕ) → get_or tx.type j 0 < 3)
    → length bytes ≤ 338
    → seqno < 2 ^ 32
    → AreHeaded (headers_of port use_cts) cards
    → radiotap_length radio ≡ length radio
    → 4 ≤ length radio
    → length radio < 2 ^ 16
    → ((rest : List ℕ)
        → (args : List (ℕ × ℕ)) × (rx_env.radiotap (radio ++ rest) (length (radio ++ rest))
            ≡ some args))
    → length rx.content ≡ 1500
    → (cards' : Cards) × (new : List Frame) × (wfb_tx_send env tx seqno bytes (length bytes) cards
        ≡ some (record tx { pcnt = (tx.pcnt + 1) % 2 ^ 64 }, cards'))
      × (cards'.frames ≡ cards.frames ++ new)
      × (length new ≡ tx.count)
      × All
          (λ f.
            (iface' : MonitorInterface) × (rx' : RxPacket) × (read_frame rx_env
                (length (captured radio f.bytes))
                (captured radio f.bytes)
                iface
                rx
              ≡ returned 1 iface' rx')
            × Carries seqno bytes rx')
          new
telemetry_delivered env rx_env port use_cts tx seqno bytes cards radio iface rx works types fits
      small v own four short accepts room =
    let (cards', new, run, frames, count, carry, headed) =
      wfb_tx_send_lem (headers_of port use_cts) env tx seqno bytes (length bytes) cards works types
        refl fits v in
    (cards', new, run, frames, count, each 0 new carry)
  where
    packet : List ℕ
    packet = (le32 seqno ++ le16 (length bytes)) ++ bytes

    six : length packet ≡ 6 + length bytes
    six = length-append (le32 seqno ++ le16 (length bytes)) bytes

    each :
        (i : ℕ) (fs : List Frame)
        → AreFrames (headers_of port use_cts) packet tx i fs
        → All
            (λ f.
              (iface' : MonitorInterface) × (rx' : RxPacket) × (read_frame rx_env
                  (length (captured radio f.bytes))
                  (captured radio f.bytes)
                  iface
                  rx
                ≡ returned 1 iface' rx')
              × Carries seqno bytes rx')
            fs
    each i [] w = tt
    each i (f ∷ fs) w =
        let (args, parsed) = accepts (drop (radiotap_length f.bytes) f.bytes) in
        let (iface', rx', run, enough, first) =
          read_captured_frame rx_env iface rx port use_cts (get_or tx.type i 0) (get_or tx.sock i 0)
            packet f radio args w.0 (omega (arith, six)) own four short parsed room in
        (
          (
            iface',
            rx',
            run,
            packet_read seqno bytes rx' small (omega arith)
                (ap (λ n. take n rx'.content) (sym six) ∙ first),
          ),
          each (i + 1) fs w.1,
        )
