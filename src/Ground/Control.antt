-- ===== src/Ground/Control.antt =====
-- rhex_ground/rhex_control.c: the table of the connected programs, and what each is answered. What
-- accept(), select() and recvfrom() do in a cycle is a parameter.
pub mod Connections
pub mod Replies
use rhex_service.Base.{
  ℕ, zero, suc, ◌+◌, ◌-◌, ◌*◌, ◌/◌, ◌%◌, ◌^◌, List, [], ◌∷◌, ◌++◌, Bool, true, false, not, ◌&&◌,
  ◌||◌, Option, none, some,
}
use rhex_service.Base.{if◌then◌else◌, ltb, ◌==◌, get_or, set, replicate}
use rhex_service.Wfb.Io.{Frame}
use rhex_service.Ground.Mavlink.{
  mavlink_ack_msg, msg_id_heartbeat, command_long, cmd_power_shutdown, cmd_power_reboot, cmd_ack_ok,
}

-- The variables of rhex_control_main with `mavlink_tx_seq`, the frames written and the descriptors
-- closed. `cmask` is the 32 bits of the mask, the lowest first.
pub record Control : Type 0 where
  pub clients : List ℕ
  pub cmask : List Bool
  pub seq : ℕ
  pub sent : List Frame
  pub closed : List ℕ

-- What the system answers in a cycle: the descriptor of accept(), when it is above 0; of select(),
-- with the highest descriptor plus one and those asked for, which can be read, when it finds any; and
-- the message that recvfrom() leaves, when its result is not negative.
pub record Answers : Type 0 where
  pub accepted : Option ℕ
  pub select : ℕ → List ℕ → Option (ℕ → Bool)
  pub recvfrom : ℕ → Option (List ℕ)

-- Fields of a mavlink_message_t and, from the byte 10 on, of a mavlink_longcmd_t.
abbrev pub msgid : List ℕ → ℕ
msgid msg = get_or msg 7 0 + 256 * get_or msg 8 0 + 65536 * get_or msg 9 0

abbrev pub long_command : List ℕ → ℕ
long_command msg = get_or msg 38 0 + 256 * get_or msg 39 0

abbrev pub target_system : List ℕ → ℕ
target_system msg = get_or msg 40 0

abbrev pub target_component : List ℕ → ℕ
target_component msg = get_or msg 41 0

-- `mavlink_tx_seq++`
abbrev pub acknowledge : List ℕ → ℕ → Control → Control
acknowledge msg sock s = record s {
  seq = (s.seq + 1) % 256;
  sent =
      s.sent
      ++ (mavlink_ack_msg s.seq sock (long_command msg) (target_system msg) (target_component msg)
            cmd_ack_ok
          ∷ []);
}

unfoldable pub parse_long : List ℕ → ℕ → Control → Control
parse_long msg sock s =
    if long_command msg == cmd_power_shutdown
    then acknowledge msg sock s
    else if long_command msg == cmd_power_reboot
    then acknowledge msg sock s
    else s

unfoldable pub parse_msg : List ℕ → ℕ → Control → Control
parse_msg msg sock s =
    if msgid msg == msg_id_heartbeat
    then s
    else if msgid msg == command_long
    then parse_long msg sock s
    else s

-- `__builtin_ctz(~cmask)`, which is not defined when every bit of the mask is set.
unfoldable pub first_free : List Bool → Option ℕ
first_free [] = none
first_free (false ∷ bits) = some 0
first_free (true ∷ bits) = elim (first_free bits) [ none ↦ none | some n ↦ some (suc n) ]

-- `none`: the behaviour of the program is not defined.
unfoldable pub take_client : Option ℕ → Control → Option Control
take_client none s = some s
take_client (some c) s = elim (first_free s.cmask) [
  | none ↦ none
  | some cn ↦ some (record s { clients = set s.clients cn c; cmask = set s.cmask cn true })
]

-- The descriptors in the table, those whose bit is set.
unfoldable pub connected : List ℕ → List Bool → List ℕ
connected [] bits = []
connected (c ∷ cs) [] = []
connected (c ∷ cs) (true ∷ bits) = c ∷ connected cs bits
connected (c ∷ cs) (false ∷ bits) = connected cs bits

unfoldable pub highest : List ℕ → ℕ → ℕ
highest [] fdmax = fdmax
highest (c ∷ cs) fdmax = highest cs (if ltb fdmax c then c else fdmax)

-- `cmask > 0U`
unfoldable pub any_bit : List Bool → Bool
any_bit [] = false
any_bit (b ∷ bits) = b || any_bit bits

module _ (a : Answers) where
  -- The loop body for the table's entry `i`.
  unfoldable pub serve_client : (ℕ → Bool) → ℕ → Control → Control
  serve_client readset i s =
      if get_or s.cmask i false && readset (get_or s.clients i 0)
      then elim (a.recvfrom (get_or s.clients i 0)) [
        | none ↦ record s {
          closed = s.closed ++ (get_or s.clients i 0 ∷ []);
          cmask = set s.cmask i false;
        }
        | some msg ↦ parse_msg msg (get_or s.clients i 0) s
      ]
      else s

  -- The loop from the entry `i` on.
  unfoldable pub serve_clients : ℕ → (ℕ → Bool) → ℕ → Control → Control
  serve_clients zero readset i s = s
  serve_clients (suc n) readset i s = serve_clients n readset (i + 1) (serve_client readset i s)

  unfoldable pub poll_clients : Control → Control
  unfolding connected highest
  poll_clients s =
      elim (a.select (highest (connected s.clients s.cmask) 0 + 1) (connected s.clients s.cmask)) [
        | none ↦ s
        | some readset ↦ serve_clients 32 readset 0 s
      ]

  unfoldable pub control_cycle : Control → Option Control
  control_cycle s = elim (take_client a.accepted s) [
    | none ↦ none
    | some s1 ↦ some (if any_bit s1.cmask then poll_clients s1 else s1)
  ]

unfoldable pub control_cycles : List Answers → Control → Option Control
control_cycles [] s = some s
control_cycles (a ∷ as') s = elim (control_cycle a s) [
  | none ↦ none
  | some s1 ↦ control_cycles as' s1
]

-- At the start of the loop; the table is not initialised.
abbrev pub started : List ℕ → Control
started clients = record {
  clients = clients;
  cmask = replicate 32 false;
  seq = 0;
  sent = [];
  closed = [];
}
