-- ===== src/Ground/Mavlink.antt =====
-- rhex_ground/include/private/mavlink_defs.h, and the messages that rhex_ground/rhex_control.c
-- writes: a message is the bytes of a mavlink_message_t.
pub mod X25
pub mod Ack
use rhex_service.Base.{
  ℕ, zero, suc, ◌+◌, ◌-◌, ◌*◌, ◌/◌, ◌%◌, ◌^◌, List, [], ◌∷◌, ◌++◌, slice, set, take, replicate,
  get_or,
}
use rhex_service.Wfb.Io.{Frame}
use Prim.Native.Nat.{bit_xor}

abbrev pub mavlink_stx : ℕ
mavlink_stx = 253

abbrev pub x25_init_crc : ℕ
x25_init_crc = 65535

abbrev pub msg_id_heartbeat : ℕ
msg_id_heartbeat = 0

abbrev pub command_long : ℕ
command_long = 76

abbrev pub msg_id_command_ack : ℕ
msg_id_command_ack = 77

abbrev pub msg_id_command_ack_crc : ℕ
msg_id_command_ack_crc = 143

abbrev pub cmd_power_shutdown : ℕ
cmd_power_shutdown = 11400

abbrev pub cmd_power_reboot : ℕ
cmd_power_reboot = 11401

abbrev pub cmd_ack_ok : ℕ
cmd_ack_ok = 1

-- Ten bytes of header, 33 words of payload, two of checksum and thirteen of signature.
abbrev pub sizeof_message : ℕ
sizeof_message = 289

-- command, result, progress, result_param2, target_system and target_component.
abbrev pub sizeof_cmd_ack : ℕ
sizeof_cmd_ack = 10

-- `tmp` is a byte; the shifts are made on ints.
unfoldable pub crc_accumulate : ℕ → ℕ → ℕ
crc_accumulate byte crc =
    let tmp = bit_xor byte (crc % 256) in
    let tmp2 = bit_xor tmp (tmp * 16) % 256 in
    bit_xor (bit_xor (bit_xor (crc / 256) (tmp2 * 256)) (tmp2 * 8)) (tmp2 / 16) % 65536

-- The loop of crc_accumulate_buffer on the bytes that are left.
unfoldable pub crc_accumulate_buffer : List ℕ → ℕ → ℕ
crc_accumulate_buffer [] crc = crc
crc_accumulate_buffer (b ∷ bs) crc = crc_accumulate_buffer bs (crc_accumulate b crc)

unfoldable pub crc_calculate : List ℕ → ℕ
crc_calculate bytes = crc_accumulate_buffer bytes x25_init_crc

-- `mavlink_tx_seq` is `seq`, which the caller moves on. The payload begins at the byte 10.
unfoldable pub mavlink_msg_buffer : ℕ → List ℕ → ℕ → ℕ → List ℕ
mavlink_msg_buffer seq msg len crc_extra =
    let buf = set (set (set (set msg 0 mavlink_stx) 1 len) 2 0) 4 seq in
    let header_crc = crc_calculate (slice buf 1 9) in
    let payload_crc = crc_accumulate_buffer (slice buf 10 (get_or buf 1 0)) header_crc in
    let checksum = crc_accumulate crc_extra payload_crc in
    set (set buf (10 + get_or buf 1 0) (checksum % 256)) (10 + get_or buf 1 0 + 1)
      (checksum / 256 % 256)

-- The message id has 24 bits from the byte 7 on, the system and the component stand before it.
abbrev pub ack_fields : ℕ → ℕ → ℕ → ℕ → List ℕ
ack_fields cmd system_id comp_id result =
    let zeroed = replicate sizeof_message 0 in
    let msg1 = set (set (set zeroed 7 msg_id_command_ack) 5 system_id) 6 comp_id in
    set (set (set msg1 10 (cmd % 256)) 11 (cmd / 256 % 256)) 12 result

-- The frame that is written: 22 bytes.
unfoldable pub mavlink_ack_msg : ℕ → ℕ → ℕ → ℕ → ℕ → ℕ → Frame
mavlink_ack_msg seq sock cmd system_id comp_id result = record {
  sock = sock;
  bytes = take 22 (
      mavlink_msg_buffer seq (ack_fields cmd system_id comp_id result) sizeof_cmd_ack
        msg_id_command_ack_crc);
}
