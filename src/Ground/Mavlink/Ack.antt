-- ===== src/Ground/Mavlink/Ack.antt =====
-- The acknowledgement as a receiver reads it: with the checksum by its definition.
use rhex_service.Base.{
  ℕ, ◌+◌, ◌*◌, ◌/◌, ◌%◌, ◌<◌, ◌≡◌, refl, ap, ◌∙◌, arith, List, [], ◌∷◌, ◌++◌, Bool, Option, none,
  some, ◌&&◌,
}
use rhex_service.Base.{if◌then◌else◌, ◌==◌, ==_iff, get_or, slice, length}
use rhex_service.Ground.Mavlink.{
  mavlink_ack_msg, mavlink_msg_buffer, crc_calculate, crc_accumulate_buffer,
}
use rhex_service.Ground.Mavlink.X25.{x25_bytes, crc_accumulate_buffer_lem, crc_accumulate_buffer-lt}

-- What an acknowledgement says, and the number of its message.
pub record AckContent : Type 0 where
  pub seq : ℕ
  pub system : ℕ
  pub component : ℕ
  pub command : ℕ
  pub result : ℕ

-- The checksum goes over the header without its first byte, the payload, and 143 for the kind of
-- the message.
abbrev pub checksum_of : List ℕ → ℕ
checksum_of frame = x25_bytes (slice frame 1 19 ++ (143 ∷ [])) 65535

abbrev pub is_ack : List ℕ → Bool
is_ack frame =
    (length frame == 22)
    && ((get_or frame 0 0 == 253)
        && ((get_or frame 1 0 == 10)
            && (get_or frame 7 0 + 256 * get_or frame 8 0 + 65536 * get_or frame 9 0 == 77)))

unfoldable pub read_ack : List ℕ → Option AckContent
unfolding x25_bytes
read_ack frame =
    if is_ack frame && (get_or frame 20 0 + 256 * get_or frame 21 0 == checksum_of frame)
    then some (record {
      seq = get_or frame 4 0;
      system = get_or frame 5 0;
      component = get_or frame 6 0;
      command = get_or frame 10 0 + 256 * get_or frame 11 0;
      result = get_or frame 12 0;
    })
    else none

module _ (seq system component command result : ℕ) where
  -- What the checksum covers.
  covered : List ℕ
  covered =
      10
      ∷ 0
      ∷ 0
      ∷ seq
      ∷ system
      ∷ component
      ∷ 77
      ∷ 0
      ∷ 0
      ∷ command % 256
      ∷ command / 256 % 256
      ∷ result
      ∷ 0
      ∷ 0
      ∷ 0
      ∷ 0
      ∷ 0
      ∷ 0
      ∷ 0
      ∷ 143
      ∷ []

  checksum : ℕ
  checksum = crc_accumulate_buffer covered 65535

  frame_bytes :
      (sock : ℕ)
      → (mavlink_ack_msg seq sock command system component result).bytes
        ≡ 253
          ∷ 10
          ∷ 0
          ∷ 0
          ∷ seq
          ∷ system
          ∷ component
          ∷ 77
          ∷ 0
          ∷ 0
          ∷ command % 256
          ∷ command / 256 % 256
          ∷ result
          ∷ 0
          ∷ 0
          ∷ 0
          ∷ 0
          ∷ 0
          ∷ 0
          ∷ 0
          ∷ checksum % 256
          ∷ checksum / 256 % 256
          ∷ []
  unfolding mavlink_ack_msg mavlink_msg_buffer crc_calculate crc_accumulate_buffer covered checksum
  frame_bytes sock = refl

  module _ (hs : seq < 256) (hy : system < 256) (hc : component < 256) (hm : command < 65536)
      (hr : result < 256) where
    checksum_lem : checksum % 256 + 256 * (checksum / 256 % 256) ≡ x25_bytes covered 65535
    unfolding checksum covered
    checksum_lem =
        omega (arith, crc_accumulate_buffer-lt covered 65535 (omega arith))
        ∙ crc_accumulate_buffer_lem covered 65535 (omega arith) (omega arith)

    -- An acknowledgement is read as it was written.
    pub read_ack-mavlink_ack_msg :
        (sock : ℕ)
        → read_ack (mavlink_ack_msg seq sock command system component result).bytes
          ≡ some (record {
            seq = seq;
            system = system;
            component = component;
            command = command;
            result = result;
          })
    unfolding read_ack covered
    read_ack-mavlink_ack_msg sock =
        ap read_ack (frame_bytes sock)
        ∙ ap (λ b. if b then some (content (command % 256 + 256 * (command / 256 % 256))) else none)
            ((==_iff (checksum % 256 + 256 * (checksum / 256 % 256)) (x25_bytes covered 65535)).1
              checksum_lem)
        ∙ ap (λ c. some (content c)) (omega arith)
      where
        content : ℕ → AckContent
        content c = record {
          seq = seq;
          system = system;
          component = component;
          command = c;
          result = result;
        }
