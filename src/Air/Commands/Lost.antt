-- ===== src/Air/Commands/Lost.antt =====
-- How lost commands are counted.
use rhex_service.Base.{
  ℕ, ◌+◌, ◌-◌, ◌%◌, ◌^◌, ◌≡◌, refl, ap, ◌∙◌, arith, List, [], ◌∷◌, true, false, Option, none, some,
}
use rhex_service.Base.{if◌then◌else◌, ltb, get_le32, Bool-cases, inl, inr, if_intro}
use rhex_service.Base.Int.{ℤ}
use rhex_service.Wfb.RxPacket.{RxPacket}
use rhex_service.Air.Commands.{
  Commands, seqno_diff, take_command, read_command, take_received, rc_cycle, rc_cycles,
}

-- The sequence number of a command that is accepted and is not 0 or 1.
abbrev pub counted : Option RxPacket → ℕ
counted none = 0
counted (some rx) =
    let seqno = get_le32 rx.content 0 % 2 ^ 32 in
    if ltb seqno (2 ^ 31 - 1) then if ltb 1 seqno then seqno else 0 else 0

abbrev pub all_counted : List (Option RxPacket) → ℕ
all_counted [] = 0
all_counted (r ∷ rs) = counted r + all_counted rs

module _ {F : Type 0} (of_int : ℤ → F) (div : F → F → F) where
  -- The variables that the count depends on.
  record IsCounted (n : ℕ) (c : Commands F) : Type 0 where
    seqno : c.last_seqno ≡ 0
    lost : c.rc_status.lost_packet_cnt ≡ n % 2 ^ 32

  seqno-read_command :
      (rx : RxPacket) (c : Commands F) → (read_command of_int div rx c).last_seqno ≡ c.last_seqno
  unfolding read_command take_command
  seqno-read_command rx c =
      if_intro {A = Commands F} (λ r. r.last_seqno ≡ c.last_seqno)
        (ltb (seqno_diff of_int div rx.content c) (2 ^ 31 - 1)) refl refl

  lost-read_command :
      (rx : RxPacket) (c : Commands F) (s n : ℕ)
      → seqno_diff of_int div rx.content c ≡ s
      → c.rc_status.lost_packet_cnt ≡ n % 2 ^ 32
      → (read_command of_int div rx c).rc_status.lost_packet_cnt
        ≡ (n + (if ltb s (2 ^ 31 - 1) then if ltb 1 s then s else 0 else 0)) % 2 ^ 32
  unfolding read_command take_command
  lost-read_command rx c s n e lost = elim (Bool-cases (ltb s (2 ^ 31 - 1))) [
    | inl near ↦
        (let near' : ltb (seqno_diff of_int div rx.content c) (2 ^ 31 - 1) ≡ true =
            ap (λ d. ltb d (2 ^ 31 - 1)) e ∙ near in
          elim (Bool-cases (ltb 1 s)) [
            | inl more ↦
                (let more' : ltb 1 (seqno_diff of_int div rx.content c) ≡ true =
                    ap (ltb 1) e ∙ more in
                  rw (near', more', near, more) (omega (arith, e, lost)))
            | inr first ↦
                (let first' : ltb 1 (seqno_diff of_int div rx.content c) ≡ false =
                    ap (ltb 1) e ∙ first in
                  rw (near', first', near, first) (omega (arith, lost)))
          ])
    | inr far ↦
        (let far' : ltb (seqno_diff of_int div rx.content c) (2 ^ 31 - 1) ≡ false =
            ap (λ d. ltb d (2 ^ 31 - 1)) e ∙ far in
          rw (far', far) (omega (arith, lost)))
  ]

  take_received-IsCounted :
      (n : ℕ) (r : Option RxPacket) (c : Commands F)
      → IsCounted n c
      → IsCounted (n + counted r) (take_received of_int div r c)
  take_received-IsCounted n none c v = record {
    seqno = v.seqno;
    lost = v.lost ∙ ap (λ k. k % 2 ^ 32) (omega arith);
  }
  take_received-IsCounted n (some rx) c v = record {
    seqno = seqno-read_command rx c ∙ v.seqno;
    lost =
        lost-read_command rx c (get_le32 rx.content 0 % 2 ^ 32) n (omega (arith, v.seqno)) v.lost;
  }

  -- While the robot runs, the last sequence number stays 0, and the number of lost packets grows,
  -- modulo 2^32, by the whole sequence number of each packet that is accepted, when that is above
  -- 1.
  pub rc_cycles_lost :
      (rs : List (Option RxPacket)) (c : Commands F) (n : ℕ)
      → c.last_seqno ≡ 0
      → c.rc_status.lost_packet_cnt ≡ n % 2 ^ 32
      → ((rc_cycles of_int div rs c).last_seqno ≡ 0)
        × ((rc_cycles of_int div rs c).rc_status.lost_packet_cnt ≡ (n + all_counted rs) % 2 ^ 32)
  unfolding rc_cycles rc_cycle
  rc_cycles_lost [] c n start lost = (start, lost ∙ ap (λ k. k % 2 ^ 32) (omega arith))
  rc_cycles_lost (r ∷ rs) c n start lost =
      let v = take_received-IsCounted n r c (record { seqno = start; lost = lost }) in
      let (seqno, total) =
        rc_cycles_lost rs (rc_cycle of_int div r c) (n + counted r) v.seqno v.lost in
      (seqno, total ∙ ap (λ k. k % 2 ^ 32) (omega arith))
