-- ===== src/Wfb/TxPacket.antt =====
-- The packet sender, libwfb/wfb_tx.c: `wfb_tx_init` without the search for the card's driver, and
-- `wfb_write` with its two entries. A radio of each kind has a header and a packet buffer.
pub mod Filling
pub mod Frames
pub mod Start
use rhex_service.Base.{
  ℕ, zero, suc, ◌+◌, ◌-◌, ◌*◌, ◌/◌, ◌%◌, ◌^◌, List, [], ◌∷◌, ◌++◌, Bool, true, false, Option, none,
  some,
}
use rhex_service.Base.{if◌then◌else◌, ltb, ◌==◌, length, take, get_or, memcpy, le32, replicate}
use rhex_service.Wfb.Io.{Frame, Env}
use rhex_service.Wfb.TxRawsock.Header.{port_encoded, radiotap_header}

-- wfb_tx_t
pub record PacketTx : Type 0 where
  pub sock : List ℕ
  pub type : List ℕ
  pub count : ℕ
  pub pcnt : ℕ

-- The header length and the packet buffer of one kind of radio.
pub record Card : Type 0 where
  pub headers_len : ℕ
  pub packet_buffer : List ℕ

-- The static variables of the file, and what was written.
pub record Cards : Type 0 where
  pub ralink : Card
  pub atheros : Card
  pub realtek : Card
  pub header : List ℕ
  pub writes : ℕ
  pub frames : List Frame

abbrev pub le16 : ℕ → List ℕ
le16 n = n % 256 ∷ n / 256 % 256 ∷ []

-- What the loop of `wfb_write` carries from one adapter to the next.
pub record Carried : Type 0 where
  pub cards : Cards
  pub padlen : ℕ
  pub offset : ℕ

-- One kind of radio: the header, the data and the padding copied; the buffer and the new lengths.
unfoldable pub fill_card : ℕ → Bool → List ℕ → List ℕ → ℕ → Card → ℕ → ℕ → Card × ℕ × ℕ
fill_card least add_header header bytes len card padlen offset =
    let h : ℕ = card.headers_len in
    let off : ℕ = if add_header then 6 else offset in
    let pad : ℕ = if ltb len least then least - len else padlen in
    let with_header =
      if add_header then memcpy card.packet_buffer h header else card.packet_buffer in
    let with_data = memcpy with_header (h + off) (take len bytes) in
    let padded =
      if ltb len least then memcpy with_data (h + off + len) (replicate pad 221) else with_data in
    (record card { packet_buffer = padded }, pad, off)

-- The cases of the switch: 0 Ralink, 1 Atheros, 2 Realtek.
unfoldable pub card_of : ℕ → Cards → Option Card
card_of zero cards = some cards.ralink
card_of (suc zero) cards = some cards.atheros
card_of (suc (suc zero)) cards = some cards.realtek
card_of (suc (suc (suc type))) cards = none

unfoldable pub set_card : ℕ → Card → Cards → Cards
set_card zero card cards = record cards { ralink = card }
set_card (suc zero) card cards = record cards { atheros = card }
set_card (suc (suc type)) card cards = record cards { realtek = card }

-- The least length of the data, up to which it is padded.
abbrev pub least_len : ℕ → ℕ
least_len type = if type == 0 then 18 else 5

-- What is written of a packet buffer.
abbrev pub frame_of : Card → ℕ → ℕ → ℕ → List ℕ
frame_of card offset len padlen = take (card.headers_len + offset + len + padlen) card.packet_buffer

module _ (env : Env) where
  -- write() on a socket; `none` is exit(1).
  unfoldable pub write_frame : ℕ → List ℕ → Cards → Option Cards
  write_frame sock bytes cards =
      if env.write_fails cards.writes
      then none
      else some (record cards {
        writes = cards.writes + 1;
        frames = cards.frames ++ (record { sock = sock; bytes = bytes } ∷ []);
      })

  -- One adapter: the switch on its type; `none` is exit(1).
  unfoldable pub write_adapter : Bool → List ℕ → ℕ → ℕ → ℕ → Carried → Option Carried
  write_adapter add_header bytes len sock type c = elim (card_of type c.cards) [
    | none ↦ none
    | some card ↦
        let (card', pad, off) =
          fill_card (least_len type) add_header c.cards.header bytes len card c.padlen c.offset in
        elim (write_frame sock (frame_of card' off len pad) (set_card type card' c.cards)) [
          | none ↦ none
          | some cards ↦ some (record { cards = cards; padlen = pad; offset = off })
        ]
  ]

  -- The loop over the adapters, of which `n` are left from the index `i` on.
  unfoldable pub write_adapters : Bool → List ℕ → ℕ → PacketTx → ℕ → ℕ → Carried → Option Carried
  write_adapters add_header bytes len tx zero i c = some c
  write_adapters add_header bytes len tx (suc n) i c =
      elim (write_adapter add_header bytes len (get_or tx.sock i 0) (get_or tx.type i 0) c) [
        | none ↦ none
        | some c' ↦ write_adapters add_header bytes len tx n (i + 1) c'
      ]

  unfoldable pub wfb_write : PacketTx → ℕ → List ℕ → ℕ → Bool → Cards → Option (PacketTx × Cards)
  wfb_write tx seqno bytes len add_header cards =
      let header = if add_header then le32 seqno ++ le16 len else cards.header in
      elim (write_adapters add_header bytes len tx tx.count 0
        (record { cards = record cards { header = header }; padlen = 0; offset = 0 })) [
          | none ↦ none
          | some c ↦ some (record tx { pcnt = (tx.pcnt + 1) % 2 ^ 64 }, c.cards)
        ]

  unfoldable pub wfb_tx_send : PacketTx → ℕ → List ℕ → ℕ → Cards → Option (PacketTx × Cards)
  wfb_tx_send tx seqno bytes len cards = wfb_write tx seqno bytes len true cards

  unfoldable pub wfb_tx_send_raw : PacketTx → List ℕ → ℕ → Cards → Option (PacketTx × Cards)
  wfb_tx_send_raw tx bytes len cards = wfb_write tx 0 bytes len false cards

-- The headers that `wfb_tx_init` sets up for a port, in packet buffers of zeros.
abbrev pub rts_header : ℕ → List ℕ
rts_header port = 180 ∷ 1 ∷ 0 ∷ 0 ∷ port_encoded port ∷ []

abbrev pub data_short_header : ℕ → List ℕ
data_short_header port = 8 ∷ 1 ∷ 0 ∷ 0 ∷ port_encoded port ∷ []

abbrev pub data_header : ℕ → List ℕ
data_header port =
    8
    ∷ 2
    ∷ 0
    ∷ 0
    ∷ port_encoded port
    ∷ 0
    ∷ 0
    ∷ 0
    ∷ 0
    ∷ 0
    ∷ 19
    ∷ 34
    ∷ 51
    ∷ 68
    ∷ 85
    ∷ 102
    ∷ 19
    ∷ 34
    ∷ 51
    ∷ 68
    ∷ 85
    ∷ 102
    ∷ 0
    ∷ 0
    ∷ []

abbrev pub radiotap_header80211n : List ℕ
radiotap_header80211n = 0 ∷ 0 ∷ 13 ∷ 0 ∷ 0 ∷ 128 ∷ 8 ∷ 0 ∷ 8 ∷ 0 ∷ 55 ∷ 48 ∷ 0 ∷ []

-- Which header each kind of radio gets; 24 is the byte for the data rate 12.
abbrev pub headers_of : ℕ → Bool → ℕ → List ℕ
headers_of port use_cts zero = radiotap_header 24 ++ data_short_header port
headers_of port use_cts (suc zero) =
    radiotap_header 24 ++ (if use_cts then data_header port else rts_header port)
headers_of port use_cts (suc (suc type)) = radiotap_header80211n ++ rts_header port

abbrev pub init_card : List ℕ → Card
init_card headers = record {
  headers_len = length headers;
  packet_buffer = memcpy (replicate 402 0) 0 headers;
}

unfoldable pub init_cards : ℕ → Bool → Cards
init_cards port use_cts = record {
  ralink = init_card (headers_of port use_cts 0);
  atheros = init_card (headers_of port use_cts 1);
  realtek = init_card (headers_of port use_cts 2);
  header = replicate 6 0;
  writes = 0;
  frames = [];
}
