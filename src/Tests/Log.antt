-- ===== src/Tests/Log.antt =====
-- A log of two messages, a full one, and one that is read too early.
use rhex_service.Base.{
  ◌≡◌, ◌+◌, ◌/◌, ◌%◌, refl, ap, [], ◌∷◌, arith, true, false, some, replicate, get_or-replicate,
  All-replicate, ◌<◌, ◌-◌, length,
}
use rhex_service.Log.{LogBuffer, level_inf, level_err, no_record}
use rhex_service.Log.Print.{Printed, print_message, log_print}
use rhex_service.Log.Put.{log_put_record, put_item}
use rhex_service.Log.Spec.{Message, Item, message_lines}
use rhex_service.Log.Ring.{IsRing, put_item_lem}
use rhex_service.Log.Order.{put_messages, printed_in_order, formatted}
use rhex_service.Log.Overrun.{log_put_record_total, full_ring_silent, unfinished_passed}

abbrev fresh : LogBuffer
fresh = record { head = 62; tail = 62; records = replicate 64 no_record }

abbrev long_message : Message
long_message = record { level = level_err; date = 5; text = replicate 40 65; behind = 0 ∷ [] }

abbrev short_message : Message
short_message = record { level = level_inf; date = 6; text = 72 ∷ 105 ∷ []; behind = 0 ∷ [] }

fresh-IsRing : IsRing fresh []
fresh-IsRing = record {
  slots = refl;
  messages = λ i. ap (λ r. length r.msg) (get_or-replicate 64 i no_record);
  at = omega arith;
  ahead = refl;
  held = tt;
}

printed_in_order_example :
    (log' : LogBuffer) × (log'' : LogBuffer) × (put_messages false
        (long_message ∷ short_message ∷ [])
        (record { buffer = some fresh; err = [] })
      ≡ some (record { buffer = some log'; err = [] }))
    × (log_print (97 ∷ []) false log'
        ≡ some (record {
          out = message_lines (97 ∷ []) false (long_message ∷ short_message ∷ []);
          log = log'';
        }))
    × IsRing log'' []
printed_in_order_example =
    printed_in_order (97 ∷ []) false (long_message ∷ short_message ∷ []) fresh [] fresh-IsRing
      (omega arith, (omega arith, tt)) (omega arith)

log_put_record_total_example :
    (log' : LogBuffer) × (log_put_record true level_err 5
        (formatted long_message)
        (record { buffer = some fresh; err = [] })
      ≡ some (record { buffer = some log'; err = [] }))
    × (log'.head ≡ (62 + (length (formatted long_message).buff - 1 - 1) / 32 + 1) % 64)
log_put_record_total_example =
    log_put_record_total true level_err 5 (formatted long_message) fresh [] (omega arith)
      (omega arith)

full_ring_silent_example :
    (log' : LogBuffer) × (put_messages true
        (replicate 64 short_message)
        (record { buffer = some fresh; err = [] })
      ≡ some (record { buffer = some log'; err = [] }))
    × (log_print (97 ∷ []) true log' ≡ some (record { out = []; log = log' }))
full_ring_silent_example =
    full_ring_silent (97 ∷ []) true (replicate 64 short_message) fresh [] fresh-IsRing
      (All-replicate (λ m. length m.text < 512) 64 short_message (omega arith)) refl

abbrev first_half : Item
first_half = record { level = level_err; log_continue = 1; text = replicate 32 65 }

abbrev half : LogBuffer
half = put_item level_err 5 32 1 (replicate 32 65) fresh

unfinished_passed_example :
    (p : Printed) × (print_message (97 ∷ []) false half ≡ some p)
    × (p.log.head ≡ half.head)
    × (p.log.tail ≡ (p.log.head + 1) % 64)
unfinished_passed_example =
    unfinished_passed (97 ∷ []) false half first_half [] (omega arith) refl tt (
      put_item_lem level_err 5 32 1 (replicate 32 65) fresh [] refl (omega arith) (omega arith)
        fresh-IsRing)
