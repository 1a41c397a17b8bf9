-- ===== src/Wfb/Io.antt =====
-- The world outside libwfb/wfb_tx_rawsock.c: the clock, write() on the raw sockets, and fec_encode().
use rhex_service.Base.{ℕ, ◌+◌, Bool, true, false, List, [], ◌∷◌, ◌++◌}

-- A frame handed to write() on a socket.
pub record Frame : Type 0 where
  pub sock : ℕ
  pub bytes : List ℕ

-- How often the clock was read, how often write() was called, and with what, in order, whether the
-- call failed or not.
pub record Io : Type 0 where
  pub clock_reads : ℕ
  pub writes : ℕ
  pub frames : List Frame

-- What the environment answers: the n-th svc_get_monotime(), whether the n-th write() fails, and
-- fec_encode() of a number of blocks.
pub record Env : Type 0 where
  pub monotime : ℕ → ℕ
  pub write_fails : ℕ → Bool
  pub fec_encode : ℕ → List (List ℕ) → ℕ → List (List ℕ)

module _ (env : Env) where
  -- The loop of `pb_transmit_packet` over the sockets that are left: 1 at the first failed write.
  unfoldable pub write_all : List ℕ → List ℕ → Io → ℕ × Io
  write_all [] frame io = (0, io)
  write_all (s ∷ socks) frame io =
      let io' : Io = record io {
        writes = io.writes + 1;
        frames = io.frames ++ (record { sock = s; bytes = frame } ∷ []);
      } in
      elim (env.write_fails io.writes) [ true ↦ (1, io') | false ↦ write_all socks frame io' ]

  -- svc_get_monotime()
  abbrev pub svc_get_monotime : Io → ℕ × Io
  svc_get_monotime io =
      (env.monotime io.clock_reads, record io { clock_reads = io.clock_reads + 1 })
