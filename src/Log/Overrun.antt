-- ===== src/Log/Overrun.antt =====
-- Logs that are longer than the ring, and messages that are read while they are written.
use rhex_service.Base.{
  ℕ, zero, suc, ◌+◌, ◌-◌, ◌/◌, ◌%◌, ◌^◌, ◌≤◌, ◌<◌, ◌≡◌, refl, sym, ap, ◌∙◌, arith, List, [], ◌∷◌,
  ◌++◌, Bool, true, some, inl, inr,
}
use rhex_service.Base.{
  ltb, ◌==◌, length, slice, get_or, All, ==_iff, Bool-cases, ltb→lt, ltb→le, le→ltb,
}
use rhex_service.Log.{LogLevel, LogBuffer, no_record}
use rhex_service.Log.Print.{
  Printed, next_tail, record_text, prepend, print_records, print_message, print_messages, log_print,
  print_name, msg_begin, msg_end,
}
use rhex_service.Log.Put.{Formatted, unsent, put_item, put_items, log_put_record}
use rhex_service.Log.Spec.{Item, Message, all_items}
use rhex_service.Log.Ring.{IsRing, IsRing-next, nothing_held, something_held}
use rhex_service.Log.Records.{print_records_again}
use rhex_service.Log.Order.{put_messages, put_messages_lem}

-- The loop ends, and moves the head by the number of records that the message takes.
put_items_total :
    (fuel : ℕ) (level : LogLevel) (tm : ℕ) (buff : List ℕ) (len offset : ℕ) (log : LogBuffer)
    → offset ≤ len
    → len ≤ length buff
    → len < 2 ^ 32
    → (len - offset) / 32 < fuel
    → (log' : LogBuffer) × (put_items fuel level tm buff len offset log ≡ some log')
      × (log'.head ≡ (log.head + (len - offset - 1) / 32 + 1) % 64)
unfolding put_items put_item
put_items_total zero level tm buff len offset log at inside small more = absurd (omega arith)
put_items_total (suc fuel) level tm buff len offset log at inside small more =
    elim (Bool-cases (ltb 32 (unsent len offset))) [
      | inl longer ↦
          (let gt = ltb→lt 32 (unsent len offset) longer in
            let next : (offset + 32) % 2 ^ 32 ≡ offset + 32 = omega arith in
            let bound = le→ltb (length buff) (offset + 32) (omega arith) in
            let log1 = put_item level tm 32 1 (slice buff offset 32) log in
            let (log', run, moved) =
              put_items_total fuel level tm buff len (offset + 32) log1 (omega arith) inside small
                (omega arith) in
            let step : put_items (suc fuel) level tm buff len offset log
                ≡ put_items fuel level tm buff len (offset + 32) log1 =
              rw (longer, bound, next) refl in
            (log', step ∙ run, moved ∙ omega arith))
      | inr shorter ↦
          (let le = ltb→le 32 (unsent len offset) shorter in
            (
              put_item level tm (unsent len offset) 0 (slice buff offset (unsent len offset)) log,
              rw (shorter, le→ltb (length buff) (offset + unsent len offset) (omega arith)) refl,
              omega arith,
            ))
    ]

-- When what vsnprintf() returns, as an unsigned number of 32 bits, is at most the size of
-- tmp_msg_buff, into which it has put anything, log_put_record on a log comes to an end, writes
-- nothing to stderr, and moves the head by one record for each 32 bytes or part of them, and by one
-- for an empty message.
pub log_put_record_total :
    (tty : Bool) (level : LogLevel) (tm : ℕ) (format : Formatted) (log : LogBuffer) (err : List ℕ)
    → format.len ≤ length format.buff
    → format.len < 2 ^ 32
    → (log' : LogBuffer) × (log_put_record tty level tm format
          (record { buffer = some log; err = err })
        ≡ some (record { buffer = some log'; err = err }))
      × (log'.head ≡ (log.head + (format.len - 1) / 32 + 1) % 64)
unfolding log_put_record
log_put_record_total tty level tm format log err inside small =
    let (log', run, moved) =
      put_items_total (format.len / 32 + 1) level tm format.buff format.len 0 log (omega arith)
        inside small (omega arith) in
    (log', rw (log_put_record, run) refl, moved ∙ omega arith)

-- When messages of fewer than 512 bytes take exactly 64 records, put into a ring with no unread
-- records, log_print writes nothing and leaves the log as it is.
pub full_ring_silent :
    (name : List ℕ) (tty : Bool) (ms : List Message) (log : LogBuffer) (err : List ℕ)
    → IsRing log []
    → All (λ m. length m.text < 512) ms
    → length (all_items ms) ≡ 64
    → (log' : LogBuffer) × (put_messages tty ms (record { buffer = some log; err = err })
        ≡ some (record { buffer = some log'; err = err }))
      × (log_print name tty log' ≡ some (record { out = []; log = log' }))
unfolding print_messages
full_ring_silent name tty ms log err v short full =
    let (log', run, ring) = put_messages_lem tty ms log err [] short (omega arith) v in
    let around : log'.head ≡ log'.tail = omega (arith, ring.ahead, ring.at) in
    let empty : (log'.head == log'.tail) ≡ true = (==_iff log'.head log'.tail).1 around in
    (log', run, rw empty refl)

-- Records that are all followed by another one, when the other one is not there yet.
print_records_unfinished :
    (fuel : ℕ) (u : Item) (us : List Item) (log : LogBuffer)
    → length us < fuel
    → length us < 63
    → u.log_continue ≡ 1
    → All (λ i. i.log_continue ≡ 1) us
    → IsRing log (u ∷ us)
    → (p : Printed) × (print_records fuel log ≡ some p)
      × (p.log.head ≡ log.head)
      × (p.log.tail ≡ log.head)
unfolding print_records
print_records_unfinished zero u us log more few one ones v = absurd (omega arith)
print_records_unfinished (suc fuel) u [] log more few one ones v =
    let r = get_or log.records log.tail no_record in
    let continues : r.log_continue ≡ 1 = ap (λ i. i.log_continue) v.held.0 ∙ one in
    let end = nothing_held (next_tail log) (IsRing-next log u [] v) in
    let at_end : (log.head == (log.tail + 1) % 64) ≡ true =
      (==_iff log.head ((log.tail + 1) % 64)).1 end in
    (
      record { out = record_text r; log = next_tail log },
      rw (continues, at_end) refl,
      refl,
      sym end,
    )
print_records_unfinished (suc fuel) u (w ∷ us) log more few one ones v =
    let next = IsRing-next log u (w ∷ us) v in
    let (p, run, head, tail) =
      print_records_unfinished fuel w us (next_tail log) (omega arith) (omega arith) ones.0 ones.1
        next in
    (
      record p { out = u.text ++ p.out },
      print_records_again fuel log u.level u.text
            (v.held.0 ∙ ap (λ c. record { level = u.level; log_continue = c; text = u.text }) one)
            (something_held (next_tail log) w us (omega arith) next)
          ∙ ap (prepend u.text) run,
      head,
      tail,
    )

-- When the unread records, at most 63, are all followed by another record of their message, which
-- is not there yet, the round of log_print ends with the head where it was and the tail one record
-- behind the head.
pub unfinished_passed :
    (name : List ℕ) (tty : Bool) (log : LogBuffer) (u : Item) (us : List Item)
    → length us < 63
    → u.log_continue ≡ 1
    → All (λ i. i.log_continue ≡ 1) us
    → IsRing log (u ∷ us)
    → (p : Printed) × (print_message name tty log ≡ some p)
      × (p.log.head ≡ log.head)
      × (p.log.tail ≡ (p.log.head + 1) % 64)
unfolding print_message
unfinished_passed name tty log u us few one ones v =
    let (p, run, head, tail) = print_records_unfinished 64 u us log (omega arith) few one ones v in
    let shown : Printed = record {
      out =
          print_name name
          ++ (msg_begin tty (get_or log.records log.tail no_record).level ++ p.out ++ msg_end tty);
      log = next_tail p.log;
    } in
    (shown, rw (print_message, run) refl, head, ap (λ t. (t + 1) % 64) (tail ∙ sym head))
