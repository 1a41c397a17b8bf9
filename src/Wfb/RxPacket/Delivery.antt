-- ===== src/Wfb/RxPacket/Delivery.antt =====
-- A frame of the packet sender, as the packet receiver takes it.
use rhex_service.Base.{
  ℕ, zero, suc, ◌+◌, ◌-◌, ◌*◌, ◌%◌, ◌^◌, ◌≤◌, ◌<◌, ◌≡◌, refl, sym, ap, ap₂, subst, ◌∙◌, arith, List,
  ◌++◌, Bool, true, false, some, append_assoc, min,
}
use rhex_service.Base.{
  if◌then◌else◌, ltb, get_or, length, take, drop, slice, memcpy, memcpy_front, take-append,
  drop-append, take-append-drop, length-append, length-take, get_or-append_before,
  get_or-append_behind, le→ltb, take-take, Bool-cases, inl, inr, ltb→le, ltb→lt,
}
use rhex_service.Base.Int.{negsuc}
use rhex_service.Wfb.Io.{Frame}
use rhex_service.Wfb.TxRawsock.Header.{radiotap_header}
use rhex_service.Wfb.TxPacket.{
  headers_of, radiotap_header80211n, data_header, data_short_header, rts_header,
}
use rhex_service.Wfb.TxPacket.Frames.{IsFrame}
use rhex_service.Wfb.RxPacket.{
  MonitorInterface, RxPacket, RxEnv, returned, header_length, packet_type, radiotap_length,
  best_dbm, read_behind, read_frame,
}

-- A radiotap header and an 802.11 header that the receiver takes for what they are.
pub record AreHeaders (rt ieee : List ℕ) : Type 0 where
  pub own : (xs : List ℕ) → radiotap_length (rt ++ xs) ≡ length rt
  pub known : (xs : List ℕ) (last : ℕ) → header_length (get_or (ieee ++ xs) 1 0) last ≡ length ieee
  pub short : length ieee ≤ 24

headers_of-AreHeaders :
    (port : ℕ) (use_cts : Bool) (type : ℕ)
    → (rt : List ℕ) × (ieee : List ℕ) × (headers_of port use_cts type ≡ rt ++ ieee)
      × AreHeaders rt ieee
unfolding header_length
headers_of-AreHeaders port use_cts zero = (
  radiotap_header 24,
  data_short_header port,
  refl,
  record { own = λ xs. refl; known = λ xs last. refl; short = omega arith },
)
headers_of-AreHeaders port true (suc zero) = (
  radiotap_header 24,
  data_header port,
  refl,
  record { own = λ xs. refl; known = λ xs last. refl; short = omega arith },
)
headers_of-AreHeaders port false (suc zero) = (
  radiotap_header 24,
  rts_header port,
  refl,
  record { own = λ xs. refl; known = λ xs last. refl; short = omega arith },
)
headers_of-AreHeaders port use_cts (suc (suc type)) = (
  radiotap_header80211n,
  rts_header port,
  refl,
  record { own = λ xs. refl; known = λ xs last. refl; short = omega arith },
)

-- A frame as a card delivers it: its own radiotap header in place of the sender's.
abbrev pub captured : List ℕ → List ℕ → List ℕ
captured radio frame = radio ++ drop (radiotap_length frame) frame

module _ (env : RxEnv) (iface : MonitorInterface) (rx : RxPacket) where
  read_frame_lem :
      (frame : List ℕ) (len r n : ℕ) (args : List (ℕ × ℕ))
      → radiotap_length frame ≡ r
      → header_length (get_or frame (r + 1) 0) iface.n80211_header_length ≡ n
      → r + n ≤ len
      → r + n < 2 ^ 32
      → env.radiotap frame len ≡ some args
      → read_frame env len frame iface rx
        ≡ returned 1
            (record iface { n80211_header_length = n })
            (record rx {
              type = packet_type (get_or frame (r + 1) 0) rx.type;
              dbm = best_dbm (negsuc 126) args;
              bytes = if ltb 1500 (len - (r + n)) then 1500 else len - (r + n);
              content =
                  memcpy rx.content 0 (
                    slice frame (r + n) (if ltb 1500 (len - (r + n)) then 1500 else len - (r + n)));
            })
  unfolding read_frame read_behind
  read_frame_lem frame len r n args own known enough small parsed =
      let no_wrap : ltb len ((r + n) % 2 ^ 32) ≡ false =
        le→ltb len ((r + n) % 2 ^ 32) (omega arith) in
      ap
        (λ q.
          read_behind env q (header_length (get_or frame (q + 1) 0) iface.n80211_header_length) len
            frame iface rx)
        own
      ∙ ap (λ q. read_behind env r q len frame iface rx) known
      ∙ rw (no_wrap, le→ltb len (r + n) enough, parsed) refl

  read_payload :
      (radio ieee payload : List ℕ) (args : List (ℕ × ℕ))
      → radiotap_length radio ≡ length radio
      → 4 ≤ length radio
      → length radio < 2 ^ 16
      → ((last : ℕ) → header_length (get_or (ieee ++ payload) 1 0) last ≡ length ieee)
      → length ieee ≤ 24
      → env.radiotap (radio ++ (ieee ++ payload)) (length (radio ++ (ieee ++ payload))) ≡ some args
      → length rx.content ≡ 1500
      → (iface' : MonitorInterface) × (rx' : RxPacket) × (read_frame env
            (length (radio ++ (ieee ++ payload)))
            (radio ++ (ieee ++ payload))
            iface
            rx
          ≡ returned 1 iface' rx')
        × (rx'.bytes ≡ min 1500 (length payload))
        × (take (min 1500 (length payload)) rx'.content ≡ take (min 1500 (length payload)) payload)
  read_payload radio ieee payload args own four small known short parsed room = (
    _,
    _,
    read_frame_lem frame (length frame) (length radio) (length ieee) args radio_same
        (ap (λ b. header_length b iface.n80211_header_length)
            (get_or-append_behind radio (ieee ++ payload) 1 0)
          ∙ known iface.n80211_header_length)
        (omega (arith, lengths)) (omega arith) parsed,
    clamped,
    ap₂ (λ k m. take k (memcpy rx.content 0 m)) {x = min 1500 (length payload)}
          {y = length (take (min 1500 (length payload)) payload)}
          (omega (arith, length-take (min 1500 (length payload)) payload)) (ap₂ take clamped behind)
        ∙ ap (take (length copied)) (
            memcpy_front rx.content copied
              (omega (arith, room, length-take (min 1500 (length payload)) payload)))
        ∙ take-append copied (drop (length copied) rx.content),
  )
    where
      frame : List ℕ
      frame = radio ++ (ieee ++ payload)

      copied : List ℕ
      copied = take (min 1500 (length payload)) payload

      lengths : length frame ≡ length radio + (length ieee + length payload)
      lengths = omega (arith, length-append radio (ieee ++ payload), length-append ieee payload)

      radio_same : radiotap_length frame ≡ length radio
      radio_same =
          ap₂ (λ m n. m + 256 * n) (get_or-append_before radio (ieee ++ payload) 2 0 (omega arith))
            (get_or-append_before radio (ieee ++ payload) 3 0 (omega arith))
          ∙ own

      behind : drop (length radio + length ieee) frame ≡ payload
      behind =
          ap₂ drop (sym (length-append radio ieee)) (sym (append_assoc radio ieee payload))
          ∙ drop-append (radio ++ ieee) payload

      clamped :
          (if ltb 1500 (length frame - (length radio + length ieee))
            then 1500
            else length frame - (length radio + length ieee))
          ≡ min 1500 (length payload)
      clamped = elim (Bool-cases (ltb 1500 (length frame - (length radio + length ieee)))) [
        | inl more ↦
            rw more (
              omega
                (arith, lengths, ltb→lt 1500 (length frame - (length radio + length ieee)) more))
        | inr less ↦
            rw less (
              omega
                (arith, lengths, ltb→le 1500 (length frame - (length radio + length ieee)) less))
      ]

  -- A frame of the sender, behind any radiotap header of the receiving card.
  pub read_captured_frame :
      (port : ℕ) (use_cts : Bool) (type sock : ℕ) (packet : List ℕ) (f : Frame) (radio : List ℕ)
      (args : List (ℕ × ℕ))
      → IsFrame sock (headers_of port use_cts type) packet f
      → length packet ≤ 1500
      → radiotap_length radio ≡ length radio
      → 4 ≤ length radio
      → length radio < 2 ^ 16
      → env.radiotap (captured radio f.bytes) (length (captured radio f.bytes)) ≡ some args
      → length rx.content ≡ 1500
      → (iface' : MonitorInterface) × (rx' : RxPacket) × (read_frame env
            (length (captured radio f.bytes))
            (captured radio f.bytes)
            iface
            rx
          ≡ returned 1 iface' rx')
        × (length packet ≤ rx'.bytes)
        × (take (length packet) rx'.content ≡ packet)
  read_captured_frame port use_cts type sock packet f radio args sent fits own four small parsed
        room =
      let (rt, ieee, split, headers) = headers_of-AreHeaders port use_cts type in
      let pre = headers_of port use_cts type in
      let padding = drop (length pre + length packet) f.bytes in
      let whole : f.bytes ≡ rt ++ (ieee ++ (packet ++ padding)) =
        sym (take-append-drop (length pre + length packet) f.bytes)
        ∙ ap (λ b. b ++ padding) sent.begins
        ∙ ap (λ p. (p ++ packet) ++ padding) split
        ∙ append_assoc (rt ++ ieee) packet padding
        ∙ append_assoc rt ieee (packet ++ padding) in
      let behind : captured radio f.bytes ≡ radio ++ (ieee ++ (packet ++ padding)) =
        ap (captured radio) whole
        ∙ ap (λ n. radio ++ drop n (rt ++ (ieee ++ (packet ++ padding))))
            (headers.own (ieee ++ (packet ++ padding)))
        ∙ ap (λ t. radio ++ t) (drop-append rt (ieee ++ (packet ++ padding))) in
      let (iface', rx', run, count, content) =
        read_payload radio ieee (packet ++ padding) args own four small
          (λ last. headers.known (packet ++ padding) last) headers.short
          (subst (λ c. env.radiotap c (length c) ≡ some args) behind parsed) room in
      (
        iface',
        rx',
        subst (λ c. read_frame env (length c) c iface rx ≡ returned 1 iface' rx') (sym behind) run,
        omega (arith, count, length-append packet padding),
        packet_first packet padding rx'.content fits content,
      )
    where
      packet_first :
          (p q content : List ℕ)
          → length p ≤ 1500
          → take (min 1500 (length (p ++ q))) content ≡ take (min 1500 (length (p ++ q))) (p ++ q)
          → take (length p) content ≡ p
      packet_first p q content fits same =
          let few : length p ≤ min 1500 (length (p ++ q)) = omega (arith, length-append p q) in
          sym (take-take (length p) (min 1500 (length (p ++ q))) content few)
          ∙ ap (take (length p)) same
          ∙ take-take (length p) (min 1500 (length (p ++ q))) (p ++ q) few
          ∙ take-append p q
