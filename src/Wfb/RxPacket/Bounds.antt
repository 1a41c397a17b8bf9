-- ===== src/Wfb/RxPacket/Bounds.antt =====
-- What a caller can rely on of a packet that was received.
use rhex_service.Base.{
  ℕ, zero, suc, ◌+◌, ◌-◌, ◌%◌, ◌^◌, ◌≤◌, ◌<◌, ◌≡◌, ◌⊎◌, inl, inr, refl, sym, ap, subst, ◌∙◌, arith,
  List, [], ◌∷◌, true, false,
}
use rhex_service.Base.{
  if◌then◌else◌, ltb, ◌==◌, get_or, length, length-memcpy, slice, set, Bool-cases, Option-cases,
  if_intro, ltb→lt, ltb→le, All, ==_iff,
}
use rhex_service.Base.Int.{ℤ, pos, negsuc, ltb_ℤ, ◌≤ℤ◌, pos_part, neg_part}
use rhex_service.Wfb.RxPacket.{
  MonitorInterface, RxPacket, RxEnv, PcapNext, pcap_error, pcap_no_packet, pcap_packet,
  InterfaceRead, exited, returned, to_int8, better_dbm, best_dbm, radiotap_length, read_behind,
  read_frame, read_captured, wfb_rx_packet_interface, WfbRx, PacketRead, packet_exited,
  packet_returned, no_interface, read_set, greatest, read_first, wfb_rx_packet,
}

-- An argument of the radiotap header that is a signal strength between -125 and -1 dBm.
abbrev pub IsSignal : ℕ × ℕ → Type 0
IsSignal (index, arg) =
    (index ≡ 5) × (ltb_ℤ (to_int8 arg) (pos 0) ≡ true) × (ltb_ℤ (negsuc 125) (to_int8 arg) ≡ true)

IsSignal-cases : (a : ℕ × ℕ) → IsSignal a ⊎ ((dbm : ℤ) → better_dbm dbm a ≡ dbm)
unfolding better_dbm
IsSignal-cases (index, arg) = elim (Bool-cases (index == 5)) [
  | inl five ↦ elim (Bool-cases (ltb_ℤ (to_int8 arg) (pos 0))) [
    | inl low ↦ elim (Bool-cases (ltb_ℤ (negsuc 125) (to_int8 arg))) [
      | inl high ↦ inl ((==_iff index 5).0 five, low, high)
      | inr low' ↦ inr (λ dbm. rw (five, low, low') refl)
    ]
    | inr high' ↦ inr (λ dbm. rw (five, high') refl)
  ]
  | inr other ↦ inr (λ dbm. rw other refl)
]

better_dbm-signal :
    (dbm : ℤ) (a : ℕ × ℕ)
    → IsSignal a
    → better_dbm dbm a ≡ (if ltb_ℤ dbm (to_int8 a.1) then to_int8 a.1 else dbm)
unfolding better_dbm
better_dbm-signal dbm (index, arg) (five, low, high) =
    let is_five : (index == 5) ≡ true = (==_iff index 5).1 five in rw (is_five, low, high) refl

-- Whatever the arguments are, the strength does not fall.
better_dbm-least : (dbm : ℤ) (a : ℕ × ℕ) → dbm ≤ℤ better_dbm dbm a
better_dbm-least dbm a = elim (IsSignal-cases a) [
  | inl s ↦
      subst (λ z. dbm ≤ℤ z) (sym (better_dbm-signal dbm a s))
        (elim (Bool-cases (ltb_ℤ dbm (to_int8 a.1))) [
          | inl lt ↦ rw lt (omega (arith, ltb→lt (pos_part dbm + neg_part (to_int8 a.1)) _ lt))
          | inr ge ↦ rw ge (omega arith)
        ])
  | inr same ↦ subst (λ z. dbm ≤ℤ z) (sym (same dbm)) (omega arith)
]

better_dbm-signal_least : (dbm : ℤ) (a : ℕ × ℕ) → IsSignal a → to_int8 a.1 ≤ℤ better_dbm dbm a
better_dbm-signal_least dbm a s =
    subst (λ z. to_int8 a.1 ≤ℤ z) (sym (better_dbm-signal dbm a s))
      (elim (Bool-cases (ltb_ℤ dbm (to_int8 a.1))) [
        | inl lt ↦ rw lt (omega arith)
        | inr ge ↦ rw ge (omega (arith, ltb→le (pos_part dbm + neg_part (to_int8 a.1)) _ ge))
      ])

better_dbm-cases :
    (dbm : ℤ) (a : ℕ × ℕ)
    → (better_dbm dbm a ≡ dbm) ⊎ (IsSignal a × (better_dbm dbm a ≡ to_int8 a.1))
better_dbm-cases dbm a = elim (IsSignal-cases a) [
  | inl s ↦ elim (Bool-cases (ltb_ℤ dbm (to_int8 a.1))) [
    | inl lt ↦ inr (s, rw lt at (better_dbm-signal dbm a s))
    | inr ge ↦ inl (rw ge at (better_dbm-signal dbm a s))
  ]
  | inr same ↦ inl (same dbm)
]

best_dbm-least : (dbm : ℤ) (args : List (ℕ × ℕ)) → dbm ≤ℤ best_dbm dbm args
unfolding best_dbm
best_dbm-least dbm [] = omega arith
best_dbm-least dbm (a ∷ args) =
    omega (arith, better_dbm-least dbm a, best_dbm-least (better_dbm dbm a) args)

-- One of the arguments.
abbrev pub Some : {A : Type 0} → (A → Type 0) → List A → Type 0
Some P [] = ⊥
Some P (x ∷ xs) = P x ⊎ Some P xs

best_dbm-signals :
    (dbm : ℤ) (args : List (ℕ × ℕ)) → All (λ a. IsSignal a → to_int8 a.1 ≤ℤ best_dbm dbm args) args
unfolding best_dbm
best_dbm-signals dbm [] = tt
best_dbm-signals dbm (a ∷ args) = (
  λ s. omega (arith, better_dbm-signal_least dbm a s, best_dbm-least (better_dbm dbm a) args),
  best_dbm-signals (better_dbm dbm a) args,
)

best_dbm-attained :
    (dbm : ℤ) (args : List (ℕ × ℕ))
    → (best_dbm dbm args ≡ dbm) ⊎ Some (λ a. IsSignal a × (best_dbm dbm args ≡ to_int8 a.1)) args
unfolding best_dbm
best_dbm-attained dbm [] = inl refl
best_dbm-attained dbm (a ∷ args) = elim (best_dbm-attained (better_dbm dbm a) args) [
  | inl e ↦ elim (better_dbm-cases dbm a) [
    | inl same ↦ inl (e ∙ same)
    | inr (s, better) ↦ inr (inl (s, e ∙ better))
  ]
  | inr some' ↦ inr (inr some')
]

-- The signal strength of a packet is at least each one between -125 and -1 among the arguments of
-- the radiotap header, and is one of them or -127.
pub best_dbm_strongest :
    (args : List (ℕ × ℕ))
    → All (λ a. IsSignal a → to_int8 a.1 ≤ℤ best_dbm (negsuc 126) args) args
      × ((best_dbm (negsuc 126) args ≡ negsuc 126)
          ⊎ Some (λ a. IsSignal a × (best_dbm (negsuc 126) args ≡ to_int8 a.1)) args)
best_dbm_strongest args = (best_dbm-signals (negsuc 126) args, best_dbm-attained (negsuc 126) args)

-- Between -127 and -1.
abbrev pub IsDbm : ℤ → Type 0
IsDbm z = (negsuc 126 ≤ℤ z) × (z ≤ℤ negsuc 0)

best_dbm-IsDbm : (args : List (ℕ × ℕ)) → IsDbm (best_dbm (negsuc 126) args)
best_dbm-IsDbm args = (
  best_dbm-least (negsuc 126) args,
  elim (best_dbm-attained (negsuc 126) args) [
    | inl e ↦ subst (λ z. z ≤ℤ negsuc 0) (sym e) (omega arith)
    | inr found ↦ of_signal args (best_dbm (negsuc 126) args) found
  ],
)
  where
    of_signal :
        (rest : List (ℕ × ℕ)) (z : ℤ)
        → Some (λ a. IsSignal a × (z ≡ to_int8 a.1)) rest
        → z ≤ℤ negsuc 0
    of_signal [] z h = absurd h
    of_signal (a ∷ rest) z (inl ((five, low, high), e)) =
        subst (λ y. y ≤ℤ negsuc 0) (sym e)
          (omega (arith, ltb→lt (pos_part (to_int8 a.1) + 0) _ low))
    of_signal (a ∷ rest) z (inr h) = of_signal rest z h

-- A packet that was received: at most 1500 bytes in the array of 1500, and a signal strength.
pub record IsReceived (rx : RxPacket) : Type 0 where
  pub room : length rx.content ≡ 1500
  pub few : rx.bytes ≤ 1500
  pub strength : IsDbm rx.dbm

-- What an interface gives: the end of the process, nothing new, or a packet.
abbrev pub IsBounded : RxPacket → InterfaceRead → Type 0
IsBounded rx (exited code) = Unit
IsBounded rx (returned result iface rx') = (rx' ≡ rx) ⊎ IsReceived rx'

module _ (env : RxEnv) where
  read_behind-IsBounded :
      (radio n len : ℕ) (frame : List ℕ) (iface : MonitorInterface) (rx : RxPacket)
      → length rx.content ≡ 1500
      → IsBounded rx (read_behind env radio n len frame iface rx)
  unfolding read_behind
  read_behind-IsBounded radio n len frame iface rx room =
      let left = len - (radio + n) in
      let bytes = if ltb 1500 left then 1500 else left in
      let few : bytes ≤ 1500 = elim (Bool-cases (ltb 1500 left)) [
        | inl more ↦ rw more (omega arith)
        | inr less ↦ rw less (ltb→le 1500 left less)
      ] in
      if_intro {A = InterfaceRead} (IsBounded rx) (ltb len ((radio + n) % 2 ^ 32)) tt (
        if_intro {A = InterfaceRead} (IsBounded rx) (ltb len (radio + n)) tt
          (elim (Option-cases (env.radiotap frame len)) [
            | inl none' ↦ rw none' tt
            | inr (args, e) ↦ rw e (
                inr (record {
                  room = length-memcpy rx.content 0 (slice frame (radio + n) bytes) ∙ room;
                  few = few;
                  strength = best_dbm-IsDbm args;
                }))
          ]))

  read_captured-IsBounded :
      (p : PcapNext) (iface : MonitorInterface) (rx : RxPacket)
      → length rx.content ≡ 1500
      → IsBounded rx (read_captured env p iface rx)
  unfolding read_captured read_frame
  read_captured-IsBounded (pcap_error true) iface rx room = tt
  read_captured-IsBounded (pcap_error false) iface rx room = tt
  read_captured-IsBounded pcap_no_packet iface rx room = inl refl
  read_captured-IsBounded (pcap_packet len frame) iface rx room =
      read_behind-IsBounded (radiotap_length frame) _ len frame iface rx room

  -- bounded
  pub wfb_rx_packet_interface-IsBounded :
      (i : ℕ) (iface : MonitorInterface) (rx : RxPacket)
      → length rx.content ≡ 1500
      → IsBounded rx (wfb_rx_packet_interface env i iface rx)
  unfolding wfb_rx_packet_interface
  wfb_rx_packet_interface-IsBounded i iface rx room =
      read_captured-IsBounded (env.pcap_next i) iface rx room

-- What the caller of wfb_rx_packet gets: still an array of 1500 bytes and at most as many, the
-- strength it had or a strength of signals, the adapter it had or one of the interfaces.
pub record IsKept (w : WfbRx) (rx : RxPacket) (w' : WfbRx) (rx' : RxPacket) : Type 0 where
  pub room : length rx'.content ≡ 1500
  pub few : rx'.bytes ≤ 1500
  pub strength : (rx'.dbm ≡ rx.dbm) ⊎ IsDbm rx'.dbm
  pub from : (rx'.adapter ≡ rx.adapter) ⊎ (rx'.adapter < w.count)
  pub number : w'.count ≡ w.count

abbrev pub AreKept : WfbRx → RxPacket → PacketRead → Type 0
AreKept w rx (packet_exited code) = Unit
AreKept w rx (packet_returned result w' rx') = IsKept w rx w' rx'

module _ (env : RxEnv) (w : WfbRx) (rx : RxPacket) (room : length rx.content ≡ 1500)
    (few : rx.bytes ≤ 1500) where
  nothing_read : IsKept w rx w rx
  nothing_read = record {
    room = room;
    few = few;
    strength = inl refl;
    from = inl refl;
    number = refl;
  }

  of_interface :
      (i : ℕ) (r : InterfaceRead)
      → i < w.count
      → IsBounded rx r
      → AreKept w rx (elim r [
        | exited code ↦ packet_exited code
        | returned n iface' rx' ↦
            packet_returned
              (pos n)
              (record w { iface = set w.iface i iface' })
              (record rx' { adapter = i })
      ])
  of_interface i (exited code) lt v = tt
  of_interface i (returned n iface' rx') lt (inl e) = record {
    room = ap (λ x. length x.content) e ∙ room;
    few = subst (λ x. x.bytes ≤ 1500) (sym e) few;
    strength = inl (ap (λ x. x.dbm) e);
    from = inr lt;
    number = refl;
  }
  of_interface i (returned n iface' rx') lt (inr v) = record {
    room = v.room;
    few = v.few;
    strength = inr v.strength;
    from = inr lt;
    number = refl;
  }

  read_first-AreKept :
      (result : ℤ) (n i : ℕ) → i + n ≡ w.count → AreKept w rx (read_first env result n i w rx)
  unfolding read_first
  read_first-AreKept result zero i e = nothing_read
  read_first-AreKept result (suc n) i e =
      let iface = get_or w.iface i no_interface in
      if_intro {A = PacketRead} (AreKept w rx) (env.is_set iface.selectable_fd)
        (of_interface i (wfb_rx_packet_interface env i iface rx) (omega arith)
          (wfb_rx_packet_interface-IsBounded env i iface rx room))
        (read_first-AreKept result n (i + 1) (omega arith))

  -- Whatever select(), libpcap and the radiotap parser give, when wfb_rx_packet returns, the packet
  -- has its array of 1500 bytes and at most as many, the signal strength it had or one from -127 to
  -- -1, and the adapter it had or one of the interfaces, whose number stays. The packet had 1500
  -- bytes of room and at most 1500 bytes.
  pub wfb_rx_packet-AreKept : AreKept w rx (wfb_rx_packet env w rx)
  unfolding wfb_rx_packet
  wfb_rx_packet-AreKept =
      let result =
        env.select (read_set env w.count 0 w) (greatest env 0 (read_set env w.count 0 w) + 1) in
      if_intro {A = PacketRead} (AreKept w rx) (ltb_ℤ (pos 0) result)
        (read_first-AreKept result w.count 0 (omega arith)) nothing_read
