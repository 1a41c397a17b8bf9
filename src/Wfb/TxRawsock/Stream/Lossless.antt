-- ===== src/Wfb/TxRawsock/Stream/Lossless.antt =====
-- The whole of `wfb_tx_stream`.
use rhex_service.Base.{ℕ, zero, suc, ◌+◌, ◌-◌, ◌*◌, ◌^◌, ◌≤◌, ◌<◌, ◌≡◌, refl, sym, ap, ◌∙◌}
use rhex_service.Base.{
  List, [], ◌++◌, append-nil, append_assoc, arith, inl, inr, true, Bool, Bool-cases,
}
use rhex_service.Base.{ltb, length, take, drop, ltb→le, ltb→lt}
use rhex_service.Base.{take_all, length-drop, drop-drop, take-append-drop, drop_all}
use rhex_service.Wfb.Io.{Env}
use rhex_service.Wfb.TxRawsock.{Sender}
use rhex_service.Wfb.TxRawsock.Block.Whole.{FillsBlocks}
use rhex_service.Wfb.TxRawsock.Stream.{tx_step, tx_loop, wfb_tx_stream}
use rhex_service.Wfb.TxRawsock.Stream.Packing.{}
use rhex_service.Wfb.TxRawsock.Stream.WellFormed.{IsWellFormed, taken}
use rhex_service.Wfb.TxRawsock.Stream.Steps.{IsStep, tx_step-IsStep}

module _ (env : Env) (fills : FillsBlocks env) (h k : ℕ) (input : List ℕ) (len : ℕ)
    (hl : length input ≡ len) (hb : len < 2 ^ 16) where
  -- The loop from `offset` on: it ends, and the rest of the input is taken.
  pub record IsRun (s : Sender) (offset : ℕ) (result : Sender × Bool) : Type 0 where
    pub ended : result.1 ≡ true
    pub valid : IsWellFormed h k result.0
    pub kept : taken h result.0 ≡ taken h s ++ drop offset input

  take_rest : (offset : ℕ) → take (len - offset) (drop offset input) ≡ drop offset input
  take_rest offset =
      take_all (len - offset) (drop offset input) (omega (arith, length-drop offset input, hl))

  IsRun-on :
      (s s' : Sender) (offset offset' : ℕ) {result : Sender × Bool}
      → IsStep env fills h k input len hl hb s offset (s', offset')
      → IsRun s' offset' result
      → IsRun s offset result
  IsRun-on s s' offset offset' st r = record {
    ended = r.ended;
    valid = r.valid;
    kept =
        r.kept
        ∙ ap (λ p. p ++ drop offset' input) st.kept
        ∙ append_assoc (taken h s) (take (offset' - offset) (drop offset input))
            (drop offset' input)
        ∙ ap (λ p. taken h s ++ p) (chunk_then_rest offset offset' st.within.0);
  }
    where
      chunk_then_rest :
          (o o' : ℕ) → o ≤ o' → take (o' - o) (drop o input) ++ drop o' input ≡ drop o input
      chunk_then_rest o o' ho =
          ap (λ p. take (o' - o) (drop o input) ++ p)
            (ap (λ m. drop m input) {x = o'} {y = o + (o' - o)} (omega arith)
              ∙ sym (drop-drop (o' - o) o input))
          ∙ take-append-drop (o' - o) (drop o input)

  tx_loop-IsRun :
      (fuel : ℕ) (s : Sender) (offset : ℕ)
      → IsWellFormed h k s
      → offset ≤ len
      → len - offset < fuel
      → s.stream.input_buffer.seq_nr + 12 * fuel ≤ 2 ^ 32
      → IsRun s offset (tx_loop env fuel s input len offset)
  unfolding tx_loop
  tx_loop-IsRun zero s offset v ho hf fits = absurd (omega arith)
  tx_loop-IsRun (suc fuel) s offset v ho hf fits = elim (Bool-cases (ltb result.1 len)) [
    | inl more ↦
        rw (more, tx_loop)
          (IsRun-on s result.0 offset result.1 step (
            tx_loop-IsRun fuel result.0 result.1 step.valid step.within.1
              (omega (arith, ltb→lt _ _ more, step.moved)) (omega (arith, step.number, fits))))
    | inr last ↦
        rw (last, tx_loop)
          (IsRun-on s result.0 offset result.1 step (record {
            ended = refl;
            valid = step.valid;
            kept =
                sym (append-nil (taken h result.0))
                ∙ ap (λ r. taken h result.0 ++ r) (sym (none_left (ltb→le _ _ last)));
          }))
  ]
    where
      result : Sender × ℕ
      result = tx_step env s input len offset

      step : IsStep env fills h k input len hl hb s offset result
      step = tx_step-IsStep env fills h k input len hl hb s v offset ho (omega (arith, fits))

      none_left : len ≤ result.1 → drop result.1 input ≡ []
      none_left h' = drop_all result.1 input (omega (arith, hl, h'))

-- A call of wfb_tx_stream ends, keeps the invariant of the stream, and the stream bytes in the
-- frames handed to write(), whether a write fails or not, followed by those pending in the packet
-- buffers, are the earlier ones followed by the input, for a well-formed stream on one adapter, an
-- input shorter than 2^16 bytes, an encoder that fills its blocks, and sequence numbers that stay
-- within 32 bits.
pub wfb_tx_stream_lossless :
    (env : Env) (fills : FillsBlocks env) (h k : ℕ) (s : Sender) (input : List ℕ) (len : ℕ)
    → IsWellFormed h k s
    → length input ≡ len
    → len < 2 ^ 16
    → s.stream.input_buffer.seq_nr + 12 * (len + 1) ≤ 2 ^ 32
    → let (s', ended) = wfb_tx_stream env s input len in
      (ended ≡ true) × IsWellFormed h k s' × (taken h s' ≡ taken h s ++ input)
unfolding wfb_tx_stream
wfb_tx_stream_lossless env fills h k s input len v hl hb fits =
    let run =
      tx_loop-IsRun env fills h k input len hl hb (len + 1) s 0 v (omega arith) (omega arith)
        fits in
    (run.ended, run.valid, run.kept)
