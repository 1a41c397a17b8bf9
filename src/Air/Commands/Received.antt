-- ===== src/Air/Commands/Received.antt =====
-- A command from the packet sender of the ground to the motion service's segment.
use rhex_service.Base.{
  ℕ, ◌+◌, ◌-◌, ◌/◌, ◌%◌, ◌^◌, ◌≤◌, ◌<◌, ◌≡◌, refl, sym, ap, ap₂, ◌∙◌, arith, List, [], ◌∷◌, ◌++◌,
  Bool, true, false, some,
}
use rhex_service.Base.{
  if◌then◌else◌, ltb, leb, length, drop, get_or, get_le32, All, All-weaken, get_or-take,
  get_or-drop, length-take, lt→ltb, leb→le, leb→lt, le→ltb, Bool-cases, inl, inr,
}
use rhex_service.Base.Int.{ℤ, pos, negsuc}
use rhex_service.Wfb.Io.{Frame, Env}
use rhex_service.Wfb.TxPacket.{le16, headers_of}
use rhex_service.Wfb.TxPacket.Frames.{AreHeaded}
use rhex_service.Wfb.RxPacket.{
  MonitorInterface, RxPacket, RxEnv, returned, radiotap_length, read_frame,
}
use rhex_service.Wfb.RxPacket.Delivery.{captured}
use rhex_service.Ground.TelemetryRx.{packet_data, data_length}
use rhex_service.Ground.TelemetryRx.Sent.{Carries, telemetry_delivered}
use rhex_service.Ground.CommandsTx.{CommandsTx, tx_rc_cycle}
use rhex_service.Air.Motion.{RcData}
use rhex_service.Air.Commands.{
  Commands, get_le16, axis_at, data_at, centred, bits_from, command_of, seqno_diff, take_command,
  read_command, rc_cycle,
}
use rhex_service.Air.Commands.Buttons.{word_of, bits_from-word_of, word_of_bound}

-- The sticks and buttons of a joystick: axes from 0 to 30000, where 1500 is the centre, and two
-- words of sixteen buttons.
pub record Joystick : Type 0 where
  pub steering : ℕ
  pub speed : ℕ
  pub others : List ℕ
  pub low_buttons : List Bool
  pub high_buttons : List Bool

pub record IsJoystick (j : Joystick) : Type 0 where
  pub steering : j.steering ≤ 30000
  pub speed : j.speed ≤ 30000
  pub others : length j.others ≡ 2
  pub low : length j.low_buttons ≡ 16
  pub high : length j.high_buttons ≡ 16

-- What the joystick's program sends.
abbrev pub joystick_bytes : Joystick → List ℕ
joystick_bytes j =
    le16 j.steering
    ++ le16 j.speed
    ++ le16 (get_or j.others 0 0)
    ++ le16 (get_or j.others 1 0)
    ++ le16 (word_of j.low_buttons)
    ++ le16 (word_of j.high_buttons)

abbrev pub axis_value : ℕ → ℤ
axis_value a = if leb 1500 a then pos (a - 1500) else negsuc (1499 - a)

centred-axis_value : (a : ℕ) → a ≤ 30000 → centred a ≡ axis_value a
centred-axis_value a h = elim (Bool-cases (leb 1500 a)) [
  | inl right ↦
      (let more = leb→le 1500 a right in
        let small : ltb ((a + 65536 - 1500) % 65536) 32768 ≡ true =
          lt→ltb ((a + 65536 - 1500) % 65536) 32768 (omega arith) in
        rw (right, small) (ap pos (omega arith)))
  | inr left ↦
      (let less = leb→lt 1500 a left in
        let large : ltb ((a + 65536 - 1500) % 65536) 32768 ≡ false =
          le→ltb ((a + 65536 - 1500) % 65536) 32768 (omega arith) in
        rw (left, large) (ap negsuc (omega arith)))
]

-- A byte behind the header of a packet.
carried_byte :
    (seqno : ℕ) (bytes : List ℕ) (rx : RxPacket) (i : ℕ)
    → Carries seqno bytes rx
    → i < length bytes
    → get_or rx.content (6 + i) 0 ≡ get_or bytes i 0
carried_byte seqno bytes rx i v lt =
    let same : length bytes ≡ length (packet_data rx) = ap length (sym v.content) in
    sym (get_or-drop 6 i rx.content 0)
    ∙ sym (
        get_or-take (data_length rx) (drop 6 rx.content) i 0
          (omega (arith, same, length-take (data_length rx) (drop 6 rx.content))))
    ∙ ap (λ b. get_or b i 0) v.content

carried_word :
    (seqno : ℕ) (bytes : List ℕ) (rx : RxPacket) (i n : ℕ)
    → Carries seqno bytes rx
    → i + 1 < length bytes
    → n < 65536
    → get_or bytes i 0 ≡ n % 256
    → get_or bytes (i + 1) 0 ≡ n / 256 % 256
    → get_le16 rx.content (6 + i) ≡ n
carried_word seqno bytes rx i n v lt small low high = omega (
  arith,
  carried_byte seqno bytes rx i v (omega arith),
  carried_byte seqno bytes rx (i + 1) v lt,
  ap (λ k. get_or rx.content k 0) {x = 6 + i + 1} {y = 6 + (i + 1)} (omega arith),
)

module _ {F : Type 0} (of_int : ℤ → F) (div : F → F → F) where
  -- The command that a joystick gives.
  abbrev pub wanted : Joystick → RcData F
  wanted j = record {
    speed = div (of_int (axis_value j.speed)) (of_int (pos 500));
    steering = div (of_int (axis_value j.steering)) (of_int (pos 500));
    btn = j.low_buttons ++ j.high_buttons;
  }

  carried_command :
      (seqno : ℕ) (j : Joystick) (rx : RxPacket)
      → IsJoystick j
      → Carries seqno (joystick_bytes j) rx
      → command_of of_int div rx.content ≡ wanted j
  carried_command seqno j rx v w =
      let low16 = word_of_bound j.low_buttons 16 v.low in
      let high16 = word_of_bound j.high_buttons 16 v.high in
      let bytes = joystick_bytes j in
      let steer : axis_at rx.content 0 ≡ j.steering =
        carried_word seqno bytes rx 0 j.steering w (omega arith) (omega (arith, v.steering)) refl
          refl in
      let speed : axis_at rx.content 1 ≡ j.speed =
        carried_word seqno bytes rx 2 j.speed w (omega arith) (omega (arith, v.speed)) refl refl in
      let low : data_at rx.content 0 ≡ word_of j.low_buttons =
        carried_word seqno bytes rx 8 (word_of j.low_buttons) w (omega arith) low16 refl refl in
      let high : data_at rx.content 1 ≡ word_of j.high_buttons =
        carried_word seqno bytes rx 10 (word_of j.high_buttons) w (omega arith) high16 refl refl in
      let low_bits : bits_from 0 16 (word_of j.low_buttons) ≡ j.low_buttons =
        ap (λ n. bits_from 0 n (word_of j.low_buttons)) (sym v.low)
        ∙ bits_from-word_of j.low_buttons in
      let high_bits : bits_from 0 16 (word_of j.high_buttons) ≡ j.high_buttons =
        ap (λ n. bits_from 0 n (word_of j.high_buttons)) (sym v.high)
        ∙ bits_from-word_of j.high_buttons in
      ap₂ (λ a b. built a b (data_at rx.content 0) (data_at rx.content 1)) speed steer
      ∙ ap₂ (built j.speed j.steering) low high
      ∙ ap₂
          (λ x y.
            scaled x y
              (bits_from 0 16 (word_of j.low_buttons) ++ bits_from 0 16 (word_of j.high_buttons)))
          (centred-axis_value j.speed v.speed) (centred-axis_value j.steering v.steering)
      ∙ ap (scaled (axis_value j.speed) (axis_value j.steering))
          (ap₂ (λ x y. x ++ y) low_bits high_bits)
    where
      scaled : ℤ → ℤ → List Bool → RcData F
      scaled x y btn = record {
        speed = div (of_int x) (of_int (pos 500));
        steering = div (of_int y) (of_int (pos 500));
        btn = btn;
      }

      built : ℕ → ℕ → ℕ → ℕ → RcData F
      built a b d e = scaled (centred a) (centred b) (bits_from 0 16 d ++ bits_from 0 16 e)

  read_command_lem :
      (rx : RxPacket) (c : Commands F)
      → c.last_seqno ≡ 0
      → get_le32 rx.content 0 < 2 ^ 31 - 1
      → (rc_cycle of_int div (some rx) c).commands
        ≡ c.commands ++ (command_of of_int div rx.content ∷ [])
  unfolding rc_cycle read_command take_command
  read_command_lem rx c start small =
      let accepted : ltb (seqno_diff of_int div rx.content c) (2 ^ 31 - 1) ≡ true =
        lt→ltb (seqno_diff of_int div rx.content c) (2 ^ 31 - 1) (omega arith) in
      rw accepted refl

  -- A joystick's axes from 0 to 30000 and 32 buttons, given to a cycle of the ground's sender with
  -- a sequence number below 2^31 - 1, while writes do not fail and the types of the adapters are
  -- known: one frame is written for each adapter, and when any of them is handed to the robot's
  -- receiver, for whichever port it was sent (the capture itself is not part of this), behind a
  -- radiotap header of 4 to 2^16 - 1 bytes in place of the sender's, which gives its own length and
  -- which the parser accepts whatever is behind it, the next command for the motion service has the
  -- speed and the steering of the two axes less 1500, divided by 500, and the 32 buttons.
  pub command_delivered :
      (env : Env) (rx_env : RxEnv) (port : ℕ) (use_cts : Bool) (t : CommandsTx) (j : Joystick)
      (radio : List ℕ) (iface : MonitorInterface) (rx : RxPacket) (c : Commands F)
      → ((n : ℕ) → env.write_fails n ≡ false)
      → ((k : ℕ) → get_or t.tx.type k 0 < 3)
      → t.seqno < 2 ^ 31 - 1
      → IsJoystick j
      → AreHeaded (headers_of port use_cts) t.cards
      → radiotap_length radio ≡ length radio
      → 4 ≤ length radio
      → length radio < 2 ^ 16
      → ((rest : List ℕ)
          → (args : List (ℕ × ℕ)) × (rx_env.radiotap (radio ++ rest) (length (radio ++ rest))
              ≡ some args))
      → length rx.content ≡ 1500
      → c.last_seqno ≡ 0
      → (t' : CommandsTx) × (new : List Frame) × (tx_rc_cycle env (some (joystick_bytes j)) t
          ≡ some t')
        × (t'.seqno ≡ t.seqno + 1)
        × (t'.cards.frames ≡ t.cards.frames ++ new)
        × (length new ≡ t.tx.count)
        × All
            (λ f.
              (iface' : MonitorInterface) × (rx' : RxPacket) × (read_frame rx_env
                  (length (captured radio f.bytes))
                  (captured radio f.bytes)
                  iface
                  rx
                ≡ returned 1 iface' rx')
              × ((rc_cycle of_int div (some rx') c).commands ≡ c.commands ++ (wanted j ∷ [])))
            new
  unfolding tx_rc_cycle
  command_delivered env rx_env port use_cts t j radio iface rx c works types small is_joystick v own
        four short accepts room start =
      let (cards', new, run, frames, count, each) =
        telemetry_delivered env rx_env port use_cts t.tx t.seqno (joystick_bytes j) t.cards radio
          iface rx works types (omega arith) (omega arith) v own four short accepts room in
      (
        record {
          seqno = (t.seqno + 1) % 2 ^ 32;
          tx = record t.tx { pcnt = (t.tx.pcnt + 1) % 2 ^ 64 };
          cards = cards';
        },
        new,
        rw (tx_rc_cycle, run) refl,
        omega arith,
        frames,
        count,
        All-weaken _ _ new
            (λ f (iface', rx', got, w). (
              iface',
              rx',
              got,
              read_command_lem rx' c start (omega (arith, w.number))
                  ∙ ap (λ d. c.commands ++ (d ∷ [])) (carried_command t.seqno j rx' is_joystick w),
            ))
            each,
      )
