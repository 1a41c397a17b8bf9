-- ===== src/Log/Print.antt =====
-- liblog/print.c: what is written to stderr, byte by byte.
use rhex_service.Base.{
  ℕ, zero, suc, ◌+◌, ◌-◌, ◌%◌, List, [], ◌∷◌, ◌++◌, Bool, Option, none, some, if◌then◌else◌, ◌==◌,
  length, take, get_or, replicate,
}
use rhex_service.Log.{
  LogLevel, LogRecord, LogBuffer, level_dbg, level_inf, level_warn, level_err, level_exc, no_record,
  log_buffer_size, log_item_end,
}

-- What a call writes, and the log behind it.
pub record Printed : Type 0 where
  pub out : List ℕ
  pub log : LogBuffer

-- PR_RED and its like: ESC [ 3 n m
abbrev pub pr_color : ℕ → List ℕ
pr_color n = 27 ∷ 91 ∷ 51 ∷ n ∷ 109 ∷ []

abbrev pub level_color : LogLevel → List ℕ
level_color level_dbg = pr_color 55
level_color level_inf = pr_color 50
level_color level_warn = pr_color 51
level_color level_err = pr_color 49
level_color level_exc = pr_color 49

abbrev pub level_msg : LogLevel → List ℕ
level_msg level_dbg = 100 ∷ 98 ∷ 103 ∷ []
level_msg level_inf = 105 ∷ 110 ∷ 102 ∷ []
level_msg level_warn = 119 ∷ 114 ∷ 110 ∷ []
level_msg level_err = 101 ∷ 114 ∷ 114 ∷ []
level_msg level_exc = 101 ∷ 120 ∷ 99 ∷ []

-- `tty` is isatty(fileno(stderr)).
abbrev pub msg_begin : Bool → LogLevel → List ℕ
msg_begin tty level = (if tty then level_color level else []) ++ level_msg level ++ (58 ∷ 32 ∷ [])

abbrev pub msg_end : Bool → List ℕ
msg_end tty = (if tty then 27 ∷ 91 ∷ 48 ∷ 109 ∷ [] else []) ++ (10 ∷ [])

-- `text` is what vfprintf() writes.
abbrev pub msg_print : Bool → LogLevel → List ℕ → List ℕ
msg_print tty level text = msg_begin tty level ++ text ++ msg_end tty

-- "[%10s ] "
abbrev pub print_name : List ℕ → List ℕ
print_name name = 91 ∷ replicate (10 - length name) 32 ++ name ++ (32 ∷ 93 ∷ 32 ∷ [])

abbrev pub record_text : LogRecord → List ℕ
record_text r = take r.msg_len r.msg

abbrev pub next_tail : LogBuffer → LogBuffer
next_tail log = record log { tail = (log.tail + 1) % log_buffer_size }

abbrev pub prepend : List ℕ → Option Printed → Option Printed
prepend out none = none
prepend out (some p) = some (record p { out = out ++ p.out })

-- The inner loop, over the records of one message.
unfoldable pub print_records : ℕ → LogBuffer → Option Printed
print_records zero log = none
print_records (suc fuel) log =
    let r = get_or log.records log.tail no_record in
    let next = next_tail log in
    let rest = print_records fuel next in
    if r.log_continue == log_item_end
    then some (record { out = record_text r; log = log })
    else if next.head == next.tail
    then some (record { out = record_text r; log = next })
    else prepend (record_text r) rest

-- One round of the outer loop.
unfoldable pub print_message : List ℕ → Bool → LogBuffer → Option Printed
print_message name tty log =
    let r = get_or log.records log.tail no_record in
    elim (print_records log_buffer_size log) [
      | none ↦ none
      | some p ↦ some (record {
        out = print_name name ++ (msg_begin tty r.level ++ p.out ++ msg_end tty);
        log = next_tail p.log;
      })
    ]

unfoldable pub print_messages : ℕ → List ℕ → Bool → LogBuffer → Option Printed
print_messages zero name tty log = none
print_messages (suc fuel) name tty log =
    if log.head == log.tail
    then some (record { out = []; log = log })
    else elim (print_message name tty log) [
      | none ↦ none
      | some p ↦
          (let rest = print_messages fuel name tty p.log in
            if p.log.head == p.log.tail then some p else prepend p.out rest)
    ]

-- A `none` is a log that has more than 64 messages to print.
abbrev pub log_print : List ℕ → Bool → LogBuffer → Option Printed
log_print name tty log = print_messages log_buffer_size name tty log
