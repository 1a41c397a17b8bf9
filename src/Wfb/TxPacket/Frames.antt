-- ===== src/Wfb/TxPacket/Frames.antt =====
-- All the adapters of one packet.
use rhex_service.Base.{◌%◌, ◌^◌}
use rhex_service.Base.{
  ℕ, zero, suc, ◌+◌, ◌≤◌, ◌<◌, ◌≡◌, refl, sym, ap, ◌∙◌, List, [], ◌∷◌, ◌++◌, append-nil,
  append_assoc, arith, true, false,
}
use rhex_service.Base.{some, length, take, length-append, get_or, le32}
use rhex_service.Wfb.Io.{Frame, Env}
use rhex_service.Wfb.TxPacket.{
  PacketTx, Card, Cards, Carried, le16, card_of, set_card, least_len, fill_card, frame_of,
  write_frame, write_adapter, write_adapters, wfb_write, wfb_tx_send,
}
use rhex_service.Wfb.TxPacket.Filling.{IsHeaded, fill_card-IsHeaded, take-frame_of}

-- The three packet buffers, with the headers `pre` gives for the kinds of radio.
pub record AreHeaded (pre : ℕ → List ℕ) (cards : Cards) : Type 0 where
  pub ralink : IsHeaded (pre 0) cards.ralink
  pub atheros : IsHeaded (pre 1) cards.atheros
  pub realtek : IsHeaded (pre 2) cards.realtek

-- A frame for the socket that begins with a radio header and the packet.
pub record IsFrame (sock : ℕ) (pre packet : List ℕ) (f : Frame) : Type 0 where
  pub to : f.sock ≡ sock
  pub begins : take (length pre + length packet) f.bytes ≡ pre ++ packet

-- One such frame for each adapter from the index `i` on.
abbrev pub AreFrames : (ℕ → List ℕ) → List ℕ → PacketTx → ℕ → List Frame → Type 0
AreFrames pre packet tx i [] = Unit
AreFrames pre packet tx i (f ∷ fs) =
    IsFrame (get_or tx.sock i 0) (pre (get_or tx.type i 0)) packet f
    × AreFrames pre packet tx (i + 1) fs

module _ (pre : ℕ → List ℕ) where
  card_of-IsHeaded :
      (type : ℕ) (cards : Cards)
      → AreHeaded pre cards
      → type < 3
      → (card : Card) × (card_of type cards ≡ some card) × IsHeaded (pre type) card
  unfolding card_of
  card_of-IsHeaded zero cards v lt = (cards.ralink, refl, v.ralink)
  card_of-IsHeaded (suc zero) cards v lt = (cards.atheros, refl, v.atheros)
  card_of-IsHeaded (suc (suc zero)) cards v lt = (cards.realtek, refl, v.realtek)
  card_of-IsHeaded (suc (suc (suc type))) cards v lt = absurd (omega arith)

  set_card-AreHeaded :
      (type : ℕ) (card : Card) (cards : Cards)
      → AreHeaded pre cards
      → type < 3
      → IsHeaded (pre type) card
      → AreHeaded pre (set_card type card cards)
        × ((set_card type card cards).frames ≡ cards.frames)
        × ((set_card type card cards).header ≡ cards.header)
  unfolding set_card
  set_card-AreHeaded zero card cards v lt w =
      (record { ralink = w; atheros = v.atheros; realtek = v.realtek }, refl, refl)
  set_card-AreHeaded (suc zero) card cards v lt w =
      (record { ralink = v.ralink; atheros = w; realtek = v.realtek }, refl, refl)
  set_card-AreHeaded (suc (suc zero)) card cards v lt w =
      (record { ralink = v.ralink; atheros = v.atheros; realtek = w }, refl, refl)
  set_card-AreHeaded (suc (suc (suc type))) card cards v lt w = absurd (omega arith)

  module _ (env : Env) (works : (n : ℕ) → env.write_fails n ≡ false) (header bytes : List ℕ)
      (len : ℕ) (six : length header ≡ 6) (whole : length bytes ≡ len) (fits : len ≤ 338) where
    AreFrames-cons :
        (tx : PacketTx) (i : ℕ) (fs gs : List Frame)
        → length fs ≡ 1
        → AreFrames pre (header ++ bytes) tx i fs
        → AreFrames pre (header ++ bytes) tx (i + 1) gs
        → AreFrames pre (header ++ bytes) tx i (fs ++ gs)
    AreFrames-cons tx i [] gs e v w = absurd (omega arith)
    AreFrames-cons tx i (f ∷ []) gs e v w = (v.0, w)
    AreFrames-cons tx i (f ∷ g ∷ fs) gs e v w = absurd (omega arith)

    -- What the loop has done for some adapters.
    record IsWritten (tx : PacketTx) (i n : ℕ) (c c' : Carried) : Type 0 where
      cards : AreHeaded pre c'.cards
      same_header : c'.cards.header ≡ c.cards.header
      new : List Frame
      number : length new ≡ n
      frames : c'.cards.frames ≡ c.cards.frames ++ new
      carry : AreFrames pre (header ++ bytes) tx i new

    -- One adapter: its frame is written, whatever the adapters before it left behind.
    write_adapter_lem :
        (tx : PacketTx) (i : ℕ) (c : Carried)
        → AreHeaded pre c.cards
        → c.cards.header ≡ header
        → get_or tx.type i 0 < 3
        → (c' : Carried) × (write_adapter env true bytes len
              (get_or tx.sock i 0)
              (get_or tx.type i 0)
              c
            ≡ some c')
          × IsWritten tx i 1 c c'
    unfolding write_adapter write_frame
    write_adapter_lem tx i c v eh lt = (
      record { cards = written; padlen = filled.1; offset = filled.2 },
      rw (write_adapter, found.1, write_frame, works stored.writes) refl,
      record {
        cards = record { ralink = set.0.ralink; atheros = set.0.atheros; realtek = set.0.realtek };
        same_header = set.2;
        new = frame ∷ [];
        number = refl;
        frames = ap (λ fs. fs ++ (frame ∷ [])) set.1;
        carry = (record { to = refl; begins = begins }, tt);
      },
    )
      where
        type : ℕ
        type = get_or tx.type i 0

        found : (card : Card) × (card_of type c.cards ≡ some card) × IsHeaded (pre type) card
        found = card_of-IsHeaded type c.cards v lt

        filled : Card × ℕ × ℕ
        filled = fill_card (least_len type) true c.cards.header bytes len found.0 c.padlen c.offset

        stored : Cards
        stored = set_card type filled.0 c.cards

        set :
            AreHeaded pre stored
            × (stored.frames ≡ c.cards.frames)
            × (stored.header ≡ c.cards.header)
        set = set_card-AreHeaded type filled.0 c.cards v lt (
            fill_card-IsHeaded (least_len type) c.cards.header bytes len found.0 c.padlen c.offset
              (pre type) (ap length eh ∙ six) whole fits found.2)

        frame : Frame
        frame = record {
          sock = get_or tx.sock i 0;
          bytes = frame_of filled.0 filled.2 len filled.1;
        }

        written : Cards
        written = record stored {
          writes = stored.writes + 1;
          frames = stored.frames ++ (frame ∷ []);
        }

        begins :
            take (length (pre type) + length (header ++ bytes)) frame.bytes
            ≡ pre type ++ (header ++ bytes)
        begins =
            ap (λ n. take n frame.bytes) {x = length (pre type) + length (header ++ bytes)}
              {y = length (pre type) + 6 + len}
              (omega (arith, length-append header bytes, six, whole))
            ∙ take-frame_of (least_len type) c.cards.header bytes len found.0 c.padlen c.offset
                (pre type) (ap length eh ∙ six) whole fits found.2
            ∙ ap (λ t. pre type ++ (t ++ bytes)) eh

    write_adapters_lem :
        (tx : PacketTx) (n i : ℕ) (c : Carried)
        → AreHeaded pre c.cards
        → c.cards.header ≡ header
        → ((j : ℕ) → get_or tx.type j 0 < 3)
        → (c' : Carried) × (write_adapters env true bytes len tx n i c ≡ some c')
          × IsWritten tx i n c c'
    unfolding write_adapters
    write_adapters_lem tx zero i c v eh types = (
      c,
      refl,
      record {
        cards = v;
        same_header = refl;
        new = [];
        number = refl;
        frames = sym (append-nil c.cards.frames);
        carry = tt;
      },
    )
    write_adapters_lem tx (suc n) i c v eh types =
        let one = write_adapter_lem tx i c v eh (types i) in
        let rest =
          write_adapters_lem tx n (i + 1) one.0 one.2.cards (one.2.same_header ∙ eh) types in
        (
          rest.0,
          rw (write_adapters, one.1) rest.1,
          record {
            cards = rest.2.cards;
            same_header = rest.2.same_header ∙ one.2.same_header;
            new = one.2.new ++ rest.2.new;
            number = omega (arith, length-append one.2.new rest.2.new, one.2.number, rest.2.number);
            frames =
                rest.2.frames
                ∙ ap (λ fs. fs ++ rest.2.new) one.2.frames
                ∙ append_assoc c.cards.frames one.2.new rest.2.new;
            carry = AreFrames-cons tx i one.2.new rest.2.new one.2.number one.2.carry rest.2.carry;
          },
        )

  -- A packet of at most 338 bytes, while writes do not fail and the types of the adapters are
  -- known: the call succeeds, counts one packet, and appends one frame for each adapter, in order
  -- and to its socket, that begins with the header of its kind of radio, the sequence number, the
  -- length and the data; the packet buffers stay ready for the next packet.
  pub wfb_tx_send_lem :
      (env : Env) (tx : PacketTx) (seqno : ℕ) (bytes : List ℕ) (len : ℕ) (cards : Cards)
      → ((n : ℕ) → env.write_fails n ≡ false)
      → ((j : ℕ) → get_or tx.type j 0 < 3)
      → length bytes ≡ len
      → len ≤ 338
      → AreHeaded pre cards
      → (cards' : Cards) × (new : List Frame) × (wfb_tx_send env tx seqno bytes len cards
          ≡ some (record tx { pcnt = (tx.pcnt + 1) % 2 ^ 64 }, cards'))
        × (cards'.frames ≡ cards.frames ++ new)
        × (length new ≡ tx.count)
        × AreFrames pre ((le32 seqno ++ le16 len) ++ bytes) tx 0 new
        × AreHeaded pre cards'
  unfolding wfb_tx_send wfb_write
  wfb_tx_send_lem env tx seqno bytes len cards works types whole fits v =
      let all =
        write_adapters_lem env works (le32 seqno ++ le16 len) bytes len refl whole fits tx tx.count
          0
          (record {
            cards = record cards { header = le32 seqno ++ le16 len };
            padlen = 0;
            offset = 0;
          })
          (record { ralink = v.ralink; atheros = v.atheros; realtek = v.realtek }) refl types in
      (
        all.0.cards,
        all.2.new,
        rw (wfb_tx_send, wfb_write, all.1) refl,
        all.2.frames,
        all.2.number,
        all.2.carry,
        all.2.cards,
      )
