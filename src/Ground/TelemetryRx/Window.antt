-- ===== src/Ground/TelemetryRx/Window.antt =====
-- How long the filter of `process_packet` remembers a sequence number.
use rhex_service.Base.{
  ℕ, zero, suc, ◌+◌, ◌-◌, ◌%◌, ◌^◌, ◌≤◌, ◌<◌, ◌≡◌, refl, sym, subst, ap, ◌∙◌, arith, List, [], ◌∷◌,
  ◌++◌, Bool, true, false, if_intro, some,
}
use rhex_service.Base.{
  if◌then◌else◌, ltb, leb, ◌==◌, length, get_or, set, get_or-set_ne, get_or-set_self, length-set,
  memcpy,
}
use rhex_service.Wfb.RxPacket.{RxPacket}
use rhex_service.Ground.TelemetryRx.{
  TelemetrySlot, Telemetry, TelemetryEnv, no_slot, seqnumber, data_length, packet_data, has_seq,
  count_received, forward, process_packet,
}
use rhex_service.Ground.TelemetryRx.Fits.{take_packet, take_packets}

-- A buffer of a hundred slots, and a sequence number in a slot that is not written again before
-- `n` more packets are sent: the slot is `left` places ahead of the one that is written next.
pub record Remembers (seq n : ℕ) (t : Telemetry) : Type 0 where
  pub hundred : length t.buffer ≡ 100
  pub position : t.buf_pos < 100
  pub left : ℕ
  pub lasting : n ≤ left
  pub ahead : left < 100
  pub slot : (get_or t.buffer ((t.buf_pos + left) % 100) no_slot).seq ≡ seq

has_seq-get_or :
    (seq i : ℕ) (slots : List TelemetrySlot)
    → i < length slots
    → (get_or slots i no_slot).seq ≡ seq
    → has_seq seq slots ≡ true
unfolding has_seq
has_seq-get_or seq i [] h e = absurd (omega arith)
has_seq-get_or seq zero (s ∷ slots) h e = ground arith
has_seq-get_or seq (suc i) (s ∷ slots) h e =
    rw (has_seq-get_or seq i slots (omega arith) e)
      (if_intro {A = Bool} (λ b. b ≡ true) (s.seq == seq) refl refl)

next_position : (i : ℕ) → i < 100 → (if leb 100 (i + 1) then 0 else i + 1) ≡ (i + 1) % 100
next_position i h = ground arith

pub Remembers-weaker : (seq m n : ℕ) (t : Telemetry) → n ≤ m → Remembers seq m t → Remembers seq n t
Remembers-weaker seq m n t le v = record {
  hundred = v.hundred;
  position = v.position;
  left = v.left;
  lasting = omega (arith, v.lasting, le);
  ahead = v.ahead;
  slot = v.slot;
}

module _ (env : TelemetryEnv) where
  count_received-Remembers :
      (seq n : ℕ) (p : RxPacket) (t : Telemetry)
      → Remembers seq n t
      → Remembers seq n (count_received env p t)
  unfolding count_received
  count_received-Remembers seq n p t v = record {
    hundred = v.hundred;
    position = v.position;
    left = v.left;
    lasting = v.lasting;
    ahead = v.ahead;
    slot = v.slot;
  }

  forward-Remembers :
      (seq n : ℕ) (p : RxPacket) (t : Telemetry)
      → Remembers seq (suc n) t
      → Remembers seq n (forward env p t)
  unfolding forward
  forward-Remembers seq n p t v =
      if_intro {A = Telemetry} (Remembers seq n) (env.sendto_fails t.sends)
        (record {
          hundred = length-set t.buffer t.buf_pos _ ∙ v.hundred;
          position = v.position;
          left = v.left;
          lasting = omega (arith, v.lasting);
          ahead = v.ahead;
          slot = other_slot _;
        })
        (record {
          hundred = length-set t.buffer t.buf_pos _ ∙ v.hundred;
          position = omega (arith, next_position t.buf_pos v.position);
          left = v.left - 1;
          lasting = omega (arith, v.lasting);
          ahead = omega (arith, v.ahead);
          slot = moved_slot _;
        })
    where
      other_slot :
          (s : TelemetrySlot)
          → (get_or (set t.buffer t.buf_pos s) ((t.buf_pos + v.left) % 100) no_slot).seq ≡ seq
      other_slot s =
          ap (λ r. r.seq)
            (get_or-set_ne t.buffer t.buf_pos ((t.buf_pos + v.left) % 100) s no_slot
              (λ e. absurd (omega (arith, e, v.position, v.lasting, v.ahead))))
          ∙ v.slot

      moved_slot :
          (s : TelemetrySlot)
          → (get_or
              (set t.buffer t.buf_pos s)
              (((if leb 100 (t.buf_pos + 1) then 0 else t.buf_pos + 1) + (v.left - 1)) % 100)
              no_slot).seq
            ≡ seq
      moved_slot s =
          ap (λ i. (get_or (set t.buffer t.buf_pos s) i no_slot).seq)
            {x = ((if leb 100 (t.buf_pos + 1) then 0 else t.buf_pos + 1) + (v.left - 1)) % 100}
            {y = (t.buf_pos + v.left) % 100}
            (omega (arith, next_position t.buf_pos v.position, v.lasting, v.position))
          ∙ other_slot s

  -- A packet that is sent is remembered for the next 99.
  pub forward_sent :
      (p : RxPacket) (t : Telemetry)
      → length t.buffer ≡ 100
      → t.buf_pos < 100
      → env.sendto_fails t.sends ≡ false
      → Remembers (seqnumber p) 99 (forward env p t)
        × ((forward env p t).sent ≡ t.sent ++ (packet_data p ∷ []))
  unfolding forward
  forward_sent p t hundred position sends =
      subst (λ r. Remembers (seqnumber p) 99 r × (r.sent ≡ t.sent ++ (packet_data p ∷ [])))
        (sym sent_as)
        (
          record {
            hundred = length-set t.buffer t.buf_pos _ ∙ hundred;
            position = omega (arith, next_position t.buf_pos position);
            left = 99;
            lasting = omega arith;
            ahead = omega arith;
            slot = written _ refl;
          },
          refl,
        )
    where
      next : ℕ
      next = if leb 100 (t.buf_pos + 1) then 0 else t.buf_pos + 1

      after : Telemetry
      after =
          let slot : TelemetrySlot = get_or t.buffer t.buf_pos no_slot in
          record t {
            buffer = set t.buffer t.buf_pos (record slot {
              payload = memcpy slot.payload 0 (packet_data p);
              len = data_length p;
              seq = seqnumber p;
              filled = true;
            });
            buf_pos = next;
            sent = t.sent ++ (packet_data p ∷ []);
            sends = t.sends + 1;
          }

      sent_as : forward env p t ≡ after
      sent_as = rw (forward, sends) refl

      written :
          (s : TelemetrySlot)
          → s.seq ≡ seqnumber p
          → (get_or (set t.buffer t.buf_pos s) ((next + 99) % 100) no_slot).seq ≡ seqnumber p
      written s e =
          ap (λ i. (get_or (set t.buffer t.buf_pos s) i no_slot).seq) {x = (next + 99) % 100}
            {y = t.buf_pos} (omega (arith, next_position t.buf_pos position))
          ∙ ap (λ r. r.seq)
              (get_or-set_self t.buffer t.buf_pos s no_slot (omega (arith, hundred, position)))
          ∙ e

  take_packet-Remembers :
      (seq n : ℕ) (p : RxPacket) (t : Telemetry)
      → Remembers seq (suc n) t
      → Remembers seq n (take_packet env p t)
  unfolding take_packet
  take_packet-Remembers seq n p t v =
      let counted = count_received-Remembers seq (suc n) p t v in
      let kept = Remembers-weaker seq (suc n) n (count_received env p t) (omega arith) counted in
      if_intro {A = Telemetry} (Remembers seq n)
        (has_seq (seqnumber p) (count_received env p t).buffer) kept
        (if_intro {A = Telemetry} (Remembers seq n)
          (ltb (2 ^ 31 - 1) ((seqnumber p + 2 ^ 32 - (count_received env p t).lastseq) % 2 ^ 32))
          kept (forward-Remembers seq n p (count_received env p t) counted))

  pub take_packets-Remembers :
      (seq n : ℕ) (ps : List RxPacket) (t : Telemetry)
      → Remembers seq (length ps + n) t
      → Remembers seq n (take_packets env ps t)
  unfolding take_packets
  take_packets-Remembers seq n [] t v =
      subst (λ m. Remembers seq m t) {x = 0 + n} {y = n} (omega arith) v
  take_packets-Remembers seq n (p ∷ ps) t v =
      take_packets-Remembers seq n ps (take_packet env p t) (
        take_packet-Remembers seq (length ps + n) p t (
          subst (λ m. Remembers seq m t) {x = suc (length ps) + n} {y = suc (length ps + n)}
            (omega arith) v))

  -- A remembered packet is only counted.
  pub repeated :
      (n : ℕ) (q : RxPacket) (t : Telemetry)
      → Remembers (seqnumber q) n t
      → process_packet env q t ≡ some (count_received env q t)
  unfolding process_packet
  repeated n q t v =
      let counted = count_received-Remembers (seqnumber q) n q t v in
      rw
        (
          process_packet,
          has_seq-get_or (seqnumber q) (((count_received env q t).buf_pos + counted.left) % 100)
              (count_received env q t).buffer (omega (arith, counted.hundred)) counted.slot,
        )
        refl
