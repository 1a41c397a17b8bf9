-- ===== src/Ground/Control/Replies.antt =====
-- What a message is answered.
use rhex_service.Base.{
  ℕ, zero, suc, ◌+◌, ◌%◌, ◌<◌, ◌≡◌, refl, sym, ap, ◌∙◌, arith, List, [], ◌∷◌, ◌++◌, true, false,
  some, ◌⊎◌, inl, inr, All,
}
use rhex_service.Base.{◌==◌, ==_iff, get_or, Bool-cases, if_intro}
use rhex_service.Wfb.Io.{Frame}
use rhex_service.Ground.Control.{
  Control, parse_msg, parse_long, acknowledge, msgid, long_command, target_system, target_component,
}
use rhex_service.Ground.Mavlink.{mavlink_ack_msg, cmd_ack_ok}
use rhex_service.Ground.Mavlink.Ack.{read_ack, read_ack-mavlink_ack_msg}

-- A command that is answered: to shut the system down, or to start it again.
abbrev pub IsPowerCommand : List ℕ → Type 0
IsPowerCommand msg = (msgid msg ≡ 76) × ((long_command msg ≡ 11400) ⊎ (long_command msg ≡ 11401))

powered :
    (msg : List ℕ) (sock : ℕ) (s : Control)
    → IsPowerCommand msg
    → parse_msg msg sock s ≡ acknowledge msg sock s
unfolding parse_msg parse_long
powered msg sock s (m, inl c) = rw (m, c) refl
powered msg sock s (m, inr c) = rw (m, c) refl

sock_kept :
    (msg : List ℕ) (sock : ℕ) (s : Control)
    → (mavlink_ack_msg s.seq sock
        (long_command msg)
        (target_system msg)
        (target_component msg)
        cmd_ack_ok).sock
      ≡ sock
unfolding mavlink_ack_msg
sock_kept msg sock s = refl

get_or-lt : (xs : List ℕ) (i : ℕ) → All (λ b. b < 256) xs → get_or xs i 0 < 256
get_or-lt [] i h = omega arith
get_or-lt (x ∷ xs) zero h = h.0
get_or-lt (x ∷ xs) (suc i) h = get_or-lt xs i h.1

false-true : false ≡ true → ⊥
false-true h = cc

-- Decided by the tests of the code.
IsPowerCommand-cases :
    (msg : List ℕ) (sock : ℕ) (s : Control)
    → IsPowerCommand msg ⊎ (¬ IsPowerCommand msg × (parse_msg msg sock s ≡ s))
unfolding parse_msg parse_long
IsPowerCommand-cases msg sock s = elim (Bool-cases (msgid msg == 76)) [
  | inl m ↦ elim (Bool-cases (long_command msg == 11400)) [
    | inl c ↦ inl ((==_iff _ _).0 m, inl ((==_iff _ _).0 c))
    | inr c ↦ elim (Bool-cases (long_command msg == 11401)) [
      | inl d ↦ inl ((==_iff _ _).0 m, inr ((==_iff _ _).0 d))
      | inr d ↦ inr (
        (λ power. elim power.1 [ inl e ↦ ne c e | inr e ↦ ne d e ]),
        if_intro (λ t. t ≡ s) (msgid msg == 0) refl (rw (m, c, d) refl),
      )
    ]
  ]
  | inr m ↦ inr ((λ power. ne m power.0), if_intro (λ t. t ≡ s) (msgid msg == 0) refl (rw m refl))
]
  where
    ne : {a b : ℕ} → (a == b) ≡ false → a ≡ b → ⊥
    ne {a} {b} f e = false-true (sym f ∙ (==_iff a b).1 e)

-- A message of bytes that is a long command to shut down or to start again is answered by one
-- frame, to its sender: with the checksum of MAVLink computed a bit at a time it reads as the
-- acknowledgement of this command, with the current number and the addresses of the command, and
-- the number moves on modulo 256. Any other message is not answered and changes nothing.
pub parse_msg_answers :
    (msg : List ℕ) (sock : ℕ) (s : Control)
    → All (λ b. b < 256) msg
    → s.seq < 256
    → (IsPowerCommand msg
        × ((frame : Frame) × ((parse_msg msg sock s).sent ≡ s.sent ++ (frame ∷ []))
            × (frame.sock ≡ sock)
            × (read_ack frame.bytes
                ≡ some (record {
                  seq = s.seq;
                  system = target_system msg;
                  component = target_component msg;
                  command = long_command msg;
                  result = 1;
                }))
            × ((parse_msg msg sock s).seq ≡ (s.seq + 1) % 256)))
      ⊎ (¬ IsPowerCommand msg × (parse_msg msg sock s ≡ s))
parse_msg_answers msg sock s hb hs = elim (IsPowerCommand-cases msg sock s) [
  | inr other ↦ inr other
  | inl power ↦ inl (
    power,
    (
      mavlink_ack_msg s.seq sock (long_command msg) (target_system msg) (target_component msg)
          cmd_ack_ok,
      ap (λ (t : Control). t.sent) (powered msg sock s power),
      sock_kept msg sock s,
      read_ack-mavlink_ack_msg s.seq (target_system msg) (target_component msg) (long_command msg) 1
          hs (get_or-lt msg 40 hb) (get_or-lt msg 41 hb)
          (omega (arith, get_or-lt msg 38 hb, get_or-lt msg 39 hb)) (omega arith) sock,
      ap (λ (t : Control). t.seq) (powered msg sock s power),
    ),
  )
]
