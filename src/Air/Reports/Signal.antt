-- ===== src/Air/Reports/Signal.antt =====
-- The signal of a report is the strongest of the adapters that receive.
use rhex_service.Base.{
  ℕ, zero, suc, ◌+◌, ◌≤◌, ◌<◌, ◌≡◌, refl, sym, ◌∙◌, subst, arith, List, Bool, true, false, ◌⊎◌, inl,
  inr,
}
use rhex_service.Base.{
  if◌then◌else◌, if_true, if_false, ◌==◌, ==_iff, ltb→lt, ltb→le, get_or, Bool-cases, dec_lt,
}
use rhex_service.Base.Int.{ℤ, negsuc, ◌≤ℤ◌, ltb_ℤ, pos_part, neg_part}
use rhex_service.Wfb.RxRawsock.{WifiAdapterRxStatus}
use rhex_service.Air.Reports.{LinkStatus, no_status, best_signal, link_signal}

true-false : true ≡ false → ⊥
true-false h = cc

module _ (adapters : List WifiAdapterRxStatus) where
  abbrev pub signal_at : ℕ → ℤ
  signal_at j = (get_or adapters j no_status).current_signal_dbm

  abbrev pub IsGood : ℕ → Type 0
  IsGood j = (get_or adapters j no_status).signal_good ≡ 1

  -- Above all good adapters from `c` to below `e`, and the signal of one of them or `low`.
  pub record IsStrongest (c e : ℕ) (low v : ℤ) : Type 0 where
    pub above : (j : ℕ) → c ≤ j → j < e → IsGood j → signal_at j ≤ℤ v
    pub attained : (v ≡ low) ⊎ ((j : ℕ) × (c ≤ j) × (j < e) × IsGood j × (v ≡ signal_at j))

  record IsFound (c e : ℕ) (low : ℤ) (flag : Bool) (r : ℤ × Bool) : Type 0 where
    pub least : low ≤ℤ r.0
    pub strongest : IsStrongest c e low r.0
    pub seen : (j : ℕ) → c ≤ j → j < e → IsGood j → r.1 ≡ false
    pub stays : flag ≡ false → r.1 ≡ false

  abbrev IsHigher : ℤ → ℤ → ℤ → Type 0
  IsHigher a b z = (a ≤ℤ z) × (b ≤ℤ z) × ((z ≡ a) ⊎ (z ≡ b))

  higher_lem : (a b : ℤ) → IsHigher a b (if ltb_ℤ a b then b else a)
  higher_lem a b = elim (Bool-cases (ltb_ℤ a b)) [
    | inl h ↦ subst (IsHigher a b) (sym (if_true b a h)) (
      omega (arith, ltb→lt (pos_part a + neg_part b) (pos_part b + neg_part a) h),
      omega arith,
      inr refl,
    )
    | inr h ↦ subst (IsHigher a b) (sym (if_false b a h)) (
      omega arith,
      omega (arith, ltb→le (pos_part a + neg_part b) (pos_part b + neg_part a) h),
      inl refl,
    )
  ]

  ≤ℤ_trans : (a b c : ℤ) → a ≤ℤ b → b ≤ℤ c → a ≤ℤ c
  ≤ℤ_trans a b c h k = omega arith

  module _ (n c : ℕ) (low : ℤ) (flag : Bool) (r : ℤ × Bool) where
    -- An adapter that receives, in front of the others.
    with_good :
        (next : ℤ)
        → IsHigher low (signal_at c) next
        → IsGood c
        → IsFound (c + 1) (c + 1 + n) next false r
        → IsFound c (c + suc n) low flag r
    with_good next (hl, hs, which) good f = record {
      least = ≤ℤ_trans low next r.0 hl f.least;
      strongest = record {
        above = λ j h k g. elim (dec_lt c j) [
          | yes later ↦ f.strongest.above j (omega (arith, later)) (omega (arith, k)) g
          | no here ↦
              subst (λ i. signal_at i ≤ℤ r.0) {x = c} {y = j} (omega (arith, here, h))
                (≤ℤ_trans (signal_at c) next r.0 hs f.least)
        ];
        attained = elim f.strongest.attained [
          | inl e ↦ elim which [
            | inl same ↦ inl (e ∙ same)
            | inr this ↦ inr (c, omega arith, omega arith, good, e ∙ this)
          ]
          | inr (j, h, k, g, e) ↦ inr (j, omega (arith, h), omega (arith, k), g, e)
        ];
      };
      seen = λ j h k g. f.stays refl;
      stays = λ h. f.stays refl;
    }

    -- One that does not.
    without :
        (IsGood c → ⊥) → IsFound (c + 1) (c + 1 + n) low flag r → IsFound c (c + suc n) low flag r
    without bad f = record {
      least = f.least;
      strongest = record {
        above = λ j h k g. f.strongest.above j (later j h g) (omega (arith, k)) g;
        attained = elim f.strongest.attained [
          | inl e ↦ inl e
          | inr (j, h, k, g, e) ↦ inr (j, omega (arith, h), omega (arith, k), g, e)
        ];
      };
      seen = λ j h k g. f.seen j (later j h g) (omega (arith, k)) g;
      stays = f.stays;
    }
      where
        later : (j : ℕ) → c ≤ j → IsGood j → c + 1 ≤ j
        later j h g = elim (dec_lt c j) [
          | yes more ↦ omega (arith, more)
          | no here ↦ absurd (bad (subst IsGood {x = j} {y = c} (omega (arith, here, h)) g))
        ]

  best_signal-IsFound :
      (n c : ℕ) (low : ℤ) (flag : Bool)
      → IsFound c (c + n) low flag (best_signal n c adapters (low, flag))
  unfolding best_signal
  best_signal-IsFound zero c low flag = record {
    least = omega arith;
    strongest = record { above = λ j h k g. absurd (omega (arith, h, k)); attained = inl refl };
    seen = λ j h k g. absurd (omega (arith, h, k));
    stays = λ h. h;
  }
  best_signal-IsFound (suc n) c low flag =
      elim (Bool-cases ((get_or adapters c no_status).signal_good == 1)) [
        | inl good ↦
            let next : ℤ = if ltb_ℤ low (signal_at c) then signal_at c else low in
            subst (λ f. IsFound c (c + suc n) low flag (best_signal n (c + 1) adapters f))
              (sym (if_true (next, false) (low, flag) good))
              (with_good n c low flag (best_signal n (c + 1) adapters (next, false)) next
                (higher_lem low (signal_at c)) ((==_iff _ 1).0 good)
                (best_signal-IsFound n (c + 1) next false))
        | inr bad ↦
            subst (λ f. IsFound c (c + suc n) low flag (best_signal n (c + 1) adapters f))
              (sym (
                if_false (if ltb_ℤ low (signal_at c) then signal_at c else low, false) (low, flag)
                  bad))
              (without n c low flag (best_signal n (c + 1) adapters (low, flag))
                (λ g. true-false (sym ((==_iff _ 1).1 g) ∙ bad))
                (best_signal-IsFound n (c + 1) low flag))
      ]

-- The signal of a link is -127 dBm or that of an adapter that receives, and no adapter that receives
-- has a stronger one.
pub link_signal-IsStrongest :
    (status : LinkStatus)
    → IsStrongest status.adapter 0 status.wifi_adapter_cnt (negsuc 126) (link_signal status)
unfolding link_signal
link_signal-IsStrongest status = elim (Bool-cases found.1) [
  | inl none' ↦
      subst (IsStrongest status.adapter 0 n (negsuc 126)) (sym (if_true (negsuc 126) found.0 none'))
        (record {
          above = λ j h k g. absurd (true-false (sym none' ∙ facts.seen j h k g));
          attained = inl refl;
        })
  | inr some' ↦
      subst (IsStrongest status.adapter 0 n (negsuc 126))
        (sym (if_false (negsuc 126) found.0 some')) facts.strongest
]
  where
    n : ℕ
    n = status.wifi_adapter_cnt

    found : ℤ × Bool
    found = best_signal status.wifi_adapter_cnt 0 status.adapter (negsuc 126, true)

    facts :
        IsFound status.adapter 0 status.wifi_adapter_cnt
          (negsuc 126)
          true
          (best_signal status.wifi_adapter_cnt 0 status.adapter (negsuc 126, true))
    facts =
        subst
          (λ e.
            IsFound status.adapter 0 e (negsuc 126) true
              (best_signal status.wifi_adapter_cnt 0 status.adapter (negsuc 126, true)))
          {x = 0 + status.wifi_adapter_cnt} {y = status.wifi_adapter_cnt} (omega arith)
          (best_signal-IsFound status.adapter status.wifi_adapter_cnt 0 (negsuc 126) true)
