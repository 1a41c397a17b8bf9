-- ===== src/Wfb/RxStream/Signal.antt =====
-- The signal that is reported is the weakest of its interval.
use rhex_service.Base.{
  ℕ, zero, suc, ◌+◌, ◌≤◌, ◌<◌, ◌≡◌, refl, sym, ap, ap₂, ◌∙◌, subst, arith, List, [], ◌∷◌, ◌++◌, ◌⊎◌,
  inl, inr,
}
use rhex_service.Base.{
  if_true, if_false, lt→ltb, le→ltb, get_or, set, length, length-set, get_or-set_self,
  get_or-middle, length-append, All, ltb→lt, ltb→le, Bool-cases,
}
use rhex_service.Base.Int.{ℤ, pos, negsuc, ◌≤ℤ◌, ltb_ℤ, pos_part, neg_part}
use rhex_service.Wfb.RxPacket.{to_int8}
use rhex_service.Wfb.RxPacket
use rhex_service.Wfb.RxRawsock.{RxEnv, WifiAdapterRxStatus}
use rhex_service.Wfb.RxStream.{
  RxStream, take_signal, report_signal, lower, tick, elapsed, status_of, no_adapter,
}

-- The weakest of the signals, and of `m`.
abbrev pub weakest : List ℕ → ℤ → ℤ
weakest [] m = m
weakest (b ∷ bs) m = weakest bs (lower (to_int8 b) m)

abbrev IsLower : ℤ → ℤ → ℤ → Type 0
IsLower x m z = (z ≤ℤ x) × (z ≤ℤ m) × ((z ≡ x) ⊎ (z ≡ m))

lower_lem : (x m : ℤ) → IsLower x m (lower x m)
lower_lem x m = elim (Bool-cases (ltb_ℤ m x)) [
  | inl h ↦ subst (IsLower x m) (sym (if_true m x h)) (
    omega (arith, ltb→lt (pos_part m + neg_part x) (pos_part x + neg_part m) h),
    omega arith,
    inr refl,
  )
  | inr h ↦ subst (IsLower x m) (sym (if_false m x h)) (
    omega arith,
    omega (arith, ltb→le (pos_part m + neg_part x) (pos_part x + neg_part m) h),
    inl refl,
  )
]

≤ℤ_trans : (a b c : ℤ) → a ≤ℤ b → b ≤ℤ c → a ≤ℤ c
≤ℤ_trans a b c h k = omega arith

-- It is a lower bound, and it is `m` or one of them.
weakest_lem :
    (bs : List ℕ) (m : ℤ)
    → (weakest bs m ≤ℤ m)
      × All (λ b. weakest bs m ≤ℤ to_int8 b) bs
      × ((weakest bs m ≡ m)
          ⊎ ((i : ℕ) × (i < length bs) × (weakest bs m ≡ to_int8 (get_or bs i 0))))
weakest_lem [] m = (omega arith, tt, inl refl)
weakest_lem (b ∷ bs) m =
    let (below, all, one) = weakest_lem bs (lower (to_int8 b) m) in
    let (lx, lm, which) = lower_lem (to_int8 b) m in
    let w : ℤ = weakest bs (lower (to_int8 b) m) in
    (
      ≤ℤ_trans w (lower (to_int8 b) m) m below lm,
      (≤ℤ_trans w (lower (to_int8 b) m) (to_int8 b) below lx, all),
      elim one [
        | inl e ↦ elim which [ inl f ↦ inr (0, omega arith, e ∙ f) | inr f ↦ inl (e ∙ f) ]
        | inr (i, k, e) ↦ inr (suc i, omega (arith, k), e)
      ],
    )

weakest-last : (bs : List ℕ) (last : ℕ) (m : ℤ) → weakest (bs ++ (last ∷ [])) m ≤ℤ to_int8 last
weakest-last [] last m = (lower_lem (to_int8 last) m).0
weakest-last (b ∷ bs) last m = weakest-last bs last (lower (to_int8 b) m)

≤ℤ_antisym : (a b : ℤ) → a ≤ℤ b → b ≤ℤ a → a ≡ b
≤ℤ_antisym (pos a) (pos b) h k = ap pos (omega arith)
≤ℤ_antisym (pos a) (negsuc b) h k = absurd (omega arith)
≤ℤ_antisym (negsuc a) (pos b) h k = absurd (omega arith)
≤ℤ_antisym (negsuc a) (negsuc b) h k = ap negsuc (omega arith)

module _ (env : RxEnv) (radio : RxPacket.RxEnv) (datarate : ℕ → ℕ → ℕ) (a : ℕ) where
  -- One signal after the other.
  pub take_signals : List ℕ → RxStream → RxStream
  take_signals [] s = s
  take_signals (b ∷ bs) s = take_signals bs (take_signal env radio datarate a b s)

  -- In an interval that began at `start`, with `m` the weakest signal so far, before the reading `k` of
  -- the clock.
  pub record IsInterval (start : ℕ) (m : ℤ) (k : ℕ) (s : RxStream) : Type 0 where
    pub kept : get_or s.stats.dbm a (pos 0) ≡ m
    pub since : get_or s.stats.dbm_ts_prev a 0 ≡ start
    pub place : a < length s.stats.dbm
    pub entry : a < length s.core.rx_status.adapter
    pub reads : s.core.clock_reads ≡ k

  -- The signal is kept, and the clock has been read.
  abbrev kept_signal : ℕ → RxStream → RxStream
  kept_signal b s =
      let last = get_or s.stats.dbm a (pos 0) in
      record (tick s) {
        stats = record s.stats {
          dbm_last = set s.stats.dbm_last a last;
          dbm = set s.stats.dbm a (lower (to_int8 b) last);
          dbm_ts_now = set s.stats.dbm_ts_now a (env.monotime s.core.clock_reads);
        };
      }

  module _ (start k b : ℕ) (m : ℤ) (s : RxStream) (v : IsInterval start m k s) where
    time_lem :
        elapsed (env.monotime s.core.clock_reads) (get_or s.stats.dbm_ts_prev a 0)
        ≡ elapsed (env.monotime k) start
    time_lem = ap₂ (λ j p. elapsed (env.monotime j) p) v.reads v.since

    kept_lem : get_or (kept_signal b s).stats.dbm a (pos 0) ≡ lower (to_int8 b) m
    kept_lem =
        get_or-set_self s.stats.dbm a (lower (to_int8 b) (get_or s.stats.dbm a (pos 0))) (pos 0)
          v.place
        ∙ ap (lower (to_int8 b)) v.kept

    quiet_step :
        elapsed (env.monotime k) start ≤ 220000000
        → IsInterval start (lower (to_int8 b) m) (k + 1) (take_signal env radio datarate a b s)
    unfolding take_signal
    quiet_step h =
        subst (IsInterval start (lower (to_int8 b) m) (k + 1))
          (sym (
            if_false
              (report_signal env radio datarate a (lower (to_int8 b) (get_or s.stats.dbm a (pos 0)))
                (kept_signal b s))
              (kept_signal b s)
              (le→ltb 220000000
                (elapsed (env.monotime s.core.clock_reads) (get_or s.stats.dbm_ts_prev a 0))
                (omega (arith, time_lem, h)))))
          (record {
            kept = kept_lem;
            since = v.since;
            place = omega (
              arith,
              v.place,
              length-set s.stats.dbm a (lower (to_int8 b) (get_or s.stats.dbm a (pos 0))),
            );
            entry = v.entry;
            reads = ap (λ j. j + 1) v.reads;
          })

    report_step :
        220000000 < elapsed (env.monotime k) start
        → (status_of (take_signal env radio datarate a b s) a).current_signal_dbm
          ≡ lower (to_int8 b) m
    unfolding take_signal report_signal
    report_step h =
        ap (λ (t : RxStream). (status_of t a).current_signal_dbm)
          (if_true (report_signal env radio datarate a dbm (kept_signal b s)) (kept_signal b s) (
            lt→ltb 220000000
              (elapsed (env.monotime s.core.clock_reads) (get_or s.stats.dbm_ts_prev a 0))
              (omega (arith, time_lem, h))))
        ∙ ap (λ (w : WifiAdapterRxStatus). w.current_signal_dbm)
            (get_or-set_self s.core.rx_status.adapter a
              (record (status_of s a) { current_signal_dbm = dbm }) no_adapter v.entry)
        ∙ ap (lower (to_int8 b)) v.kept
      where
        dbm : ℤ
        dbm = lower (to_int8 b) (get_or s.stats.dbm a (pos 0))

  -- The clock's readings from `k` on lie within 220 ms after `start`, `n` of them.
  abbrev pub AreQuiet : ℕ → ℕ → ℕ → Type 0
  AreQuiet start k zero = Unit {0}
  AreQuiet start k (suc n) = (elapsed (env.monotime k) start ≤ 220000000) × AreQuiet start (k + 1) n

  signals_reported :
      (start k last : ℕ) (m : ℤ) (bs : List ℕ) (s : RxStream)
      → IsInterval start m k s
      → AreQuiet start k (length bs)
      → 220000000 < elapsed (env.monotime (k + length bs)) start
      → (status_of (take_signals (bs ++ (last ∷ [])) s) a).current_signal_dbm
        ≡ weakest (bs ++ (last ∷ [])) m
  unfolding take_signals
  signals_reported start k last m [] s v q h =
      report_step start k last m s v (
        omega
          (arith, h, ap (λ j. elapsed (env.monotime j) start) {x = k + 0} {y = k} (omega arith)))
  signals_reported start k last m (b ∷ bs) s v q h =
      signals_reported start (k + 1) last (lower (to_int8 b) m) bs
        (take_signal env radio datarate a b s) (quiet_step start k b m s v q.0) q.1
        (omega (
          arith,
          h,
          ap (λ j. elapsed (env.monotime j) start) {x = k + suc (length bs)} {y = k + 1 + length bs}
              (omega arith),
        ))

  -- The signal of an adapter that is reported at the end of an interval of 220 ms, which began with
  -- 99 dBm, is one of the signals of the interval and no stronger than any of them, when the last
  -- one is at most 99 dBm.
  pub reported_weakest :
      (start k last : ℕ) (bs : List ℕ) (s : RxStream)
      → IsInterval start (pos 99) k s
      → AreQuiet start k (length bs)
      → 220000000 < elapsed (env.monotime (k + length bs)) start
      → to_int8 last ≤ℤ pos 99
      → let signals = bs ++ (last ∷ []) in
        let reported = (status_of (take_signals signals s) a).current_signal_dbm in
        All (λ b. reported ≤ℤ to_int8 b) signals
        × ((i : ℕ) × (i < length signals) × (reported ≡ to_int8 (get_or signals i 0)))
  reported_weakest start k last bs s v q h n =
      subst
        (λ r.
          All (λ b. r ≤ℤ to_int8 b) signals
          × ((i : ℕ) × (i < length signals) × (r ≡ to_int8 (get_or signals i 0))))
        (sym (signals_reported start k last (pos 99) bs s v q h))
        (
          found.1,
          elim found.2 [
            | inl e ↦ (length bs, omega (arith, length-append bs (last ∷ [])), at_most e)
            | inr one ↦ one
          ],
        )
    where
      signals : List ℕ
      signals = bs ++ (last ∷ [])

      found :
          (weakest (bs ++ (last ∷ [])) (pos 99) ≤ℤ pos 99)
          × All (λ b. weakest (bs ++ (last ∷ [])) (pos 99) ≤ℤ to_int8 b) (bs ++ (last ∷ []))
          × ((weakest (bs ++ (last ∷ [])) (pos 99) ≡ pos 99)
              ⊎ ((i : ℕ) × (i < length (bs ++ (last ∷ [])))
                  × (weakest (bs ++ (last ∷ [])) (pos 99)
                      ≡ to_int8 (get_or (bs ++ (last ∷ [])) i 0))))
      found = weakest_lem (bs ++ (last ∷ [])) (pos 99)

      at_most :
          weakest (bs ++ (last ∷ [])) (pos 99) ≡ pos 99
          → weakest (bs ++ (last ∷ [])) (pos 99)
            ≡ to_int8 (get_or (bs ++ (last ∷ [])) (length bs) 0)
      at_most e =
          e
          ∙ ≤ℤ_antisym (pos 99) (to_int8 last)
              (subst (λ r. r ≤ℤ to_int8 last) e (weakest-last bs last (pos 99))) n
          ∙ ap to_int8 (sym (get_or-middle bs last [] 0))
