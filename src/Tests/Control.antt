-- ===== src/Tests/Control.antt =====
-- Two programs connect, one of them shuts the system down, and both leave.
use rhex_service.Base.{
  ℕ, ◌+◌, ◌%◌, ◌≡◌, refl, List, [], ◌∷◌, ◌++◌, arith, Option, none, some, replicate, ◌⊎◌, inl,
}
use rhex_service.Base.{◌==◌}
use rhex_service.Wfb.Io.{Frame}
use rhex_service.Ground.Control.{Control, Answers, control_cycles, started, connected, parse_msg}
use rhex_service.Ground.Control.Connections.{control_cycles-accounted, count}
use rhex_service.Ground.Control.Replies.{parse_msg_answers, IsPowerCommand}
use rhex_service.Ground.Mavlink.Ack.{read_ack}

-- A long command 11400 to the system 3 and its component 4.
abbrev shutdown : List ℕ
shutdown =
    253
    ∷ 33
    ∷ 0
    ∷ 0
    ∷ 0
    ∷ 255
    ∷ 190
    ∷ 76
    ∷ 0
    ∷ 0
    ∷ (replicate 28 0 ++ (136 ∷ 44 ∷ 3 ∷ 4 ∷ 0 ∷ replicate 246 0))

abbrev quiet : Option ℕ → Answers
quiet c = record { accepted = c; select = λ nfds fds. none; recvfrom = λ fd. none }

abbrev answers : List Answers
answers =
    quiet (some 5)
    ∷ quiet (some 6)
    ∷ record {
      accepted = none;
      select = λ nfds fds. some (λ fd. fd == 6);
      recvfrom = λ fd. some shutdown;
    }
    ∷ record { accepted = some 7; select = λ nfds fds. some (λ fd. fd == 5); recvfrom = λ fd. none }
    ∷ []

control_cycles-accounted_example :
    (s : Control) × (control_cycles answers (started (replicate 32 0)) ≡ some s)
    × ((fd : ℕ)
        → count fd (5 ∷ 6 ∷ 7 ∷ []) ≡ count fd s.closed + count fd (connected s.clients s.cmask))
control_cycles-accounted_example =
    control_cycles-accounted answers (replicate 32 0) refl (omega arith)

parse_msg_answers_example :
    (IsPowerCommand shutdown
      × ((frame : Frame) × ((parse_msg shutdown 6 (started [])).sent
            ≡ (started []).sent ++ (frame ∷ []))
          × (frame.sock ≡ 6)
          × (read_ack frame.bytes
              ≡ some (record { seq = 0; system = 3; component = 4; command = 11400; result = 1 }))
          × ((parse_msg shutdown 6 (started [])).seq ≡ (0 + 1) % 256)))
    ⊎ (¬ IsPowerCommand shutdown × (parse_msg shutdown 6 (started []) ≡ started []))
parse_msg_answers_example = parse_msg_answers shutdown 6 (started []) (omega arith) (omega arith)

shutdown-IsPowerCommand : IsPowerCommand shutdown
shutdown-IsPowerCommand = (refl, inl refl)
