-- ===== src/Log/Put.antt =====
-- liblog/put_record.c
use rhex_service.Base.{
  ℕ, zero, suc, ◌+◌, ◌-◌, ◌/◌, ◌%◌, ◌^◌, List, ◌++◌, Bool, Option, none, some, if◌then◌else◌, ltb,
  get_or, set, memcpy, slice, length,
}
use rhex_service.Log.{
  LogLevel, LogRecord, LogBuffer, no_record, log_buffer_size, log_item_maxmsg, log_item_end,
  log_item_continue,
}
use rhex_service.Log.Print.{msg_print}

-- What vsnprintf() puts into tmp_msg_buff and returns, and what vfprintf() writes.
pub record Formatted : Type 0 where
  pub buff : List ℕ
  pub len : ℕ
  pub text : List ℕ

-- The log of the process, if it has one, and what was written to stderr.
pub record Logging : Type 0 where
  pub buffer : Option LogBuffer
  pub err : List ℕ

-- One record at the head.
unfoldable pub put_item : LogLevel → ℕ → ℕ → ℕ → List ℕ → LogBuffer → LogBuffer
put_item level tm len continue bytes log =
    let r : LogRecord = get_or log.records log.head no_record in
    let r' : LogRecord = record {
      level = level;
      date = tm;
      msg_len = len % 256;
      log_continue = continue;
      msg = memcpy r.msg 0 bytes;
    } in
    record log { records = set log.records log.head r'; head = (log.head + 1) % log_buffer_size }

-- len - offset
abbrev pub unsent : ℕ → ℕ → ℕ
unsent len offset = (len + 2 ^ 32 - offset) % 2 ^ 32

-- `none`: a read past the end of tmp_msg_buff, for which the behaviour of the program is not defined,
-- or no fuel left.
unfoldable pub put_items : ℕ → LogLevel → ℕ → List ℕ → ℕ → ℕ → LogBuffer → Option LogBuffer
put_items zero level tm buff len offset log = none
put_items (suc fuel) level tm buff len offset log =
    let rest = put_items fuel level tm buff len ((offset + log_item_maxmsg) % 2 ^ 32) (
      put_item level tm log_item_maxmsg log_item_continue (slice buff offset log_item_maxmsg)
        log) in
    if ltb log_item_maxmsg (unsent len offset)
    then (if ltb (length buff) (offset + log_item_maxmsg) then none else rest)
    else if ltb (length buff) (offset + unsent len offset)
    then none
    else some (
        put_item level tm (unsent len offset) log_item_end (slice buff offset (unsent len offset))
          log)

-- `tm` is svc_get_time().
unfoldable pub log_put_record : Bool → LogLevel → ℕ → Formatted → Logging → Option Logging
log_put_record tty level tm format l = elim l.buffer [
  | none ↦ some (record l { err = l.err ++ msg_print tty level format.text })
  | some log ↦ elim (put_items (format.len / 32 + 1) level tm format.buff format.len 0 log) [
    | none ↦ none
    | some log' ↦ some (record l { buffer = some log' })
  ]
]
