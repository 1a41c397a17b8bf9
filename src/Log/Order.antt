-- ===== src/Log/Order.antt =====
-- Many messages: put one after the other, and printed in one call.
use rhex_service.Base.{
  ℕ, zero, suc, ◌+◌, ◌-◌, ◌/◌, ◌≤◌, ◌<◌, ◌≡◌, ◌≢◌, true, refl, sym, ap, subst, ◌∙◌, arith, List, [],
  ◌∷◌, ◌++◌, Bool, Option, none, some, append_assoc, append-nil,
}
use rhex_service.Base.{
  length, take, All, get_or, take-append, length-append, if◌then◌else◌, ◌==◌, ==_iff,
}
use rhex_service.Log.{LogBuffer, no_record}
use rhex_service.Log.Print.{
  Printed, next_tail, prepend, print_name, msg_print, print_message, print_messages, log_print,
}
use rhex_service.Log.Put.{Formatted, Logging, log_put_record}
use rhex_service.Log.Spec.{
  Item, Message, continued, split_items, message_items, all_items, message_lines,
}
use rhex_service.Log.Ring.{IsRing, nothing_held}
use rhex_service.Log.Records.{
  length-split_items, put_items_lem, print_records_lem, split_held, ≢→==,
}

abbrev pub formatted : Message → Formatted
formatted m = record { buff = m.text ++ m.behind; len = length m.text; text = m.text }

unfoldable pub put_messages : Bool → List Message → Logging → Option Logging
put_messages tty [] l = some l
put_messages tty (m ∷ ms) l = elim (log_put_record tty m.level m.date (formatted m) l) [
  | none ↦ none
  | some l' ↦ put_messages tty ms l'
]

put_message :
    (tty : Bool) (m : Message) (log : LogBuffer) (err : List ℕ) (us : List Item)
    → length m.text < 512
    → length us + length (message_items m) ≤ 64
    → IsRing log us
    → (log' : LogBuffer) × (log_put_record tty m.level m.date
          (formatted m)
          (record { buffer = some log; err = err })
        ≡ some (record { buffer = some log'; err = err }))
      × IsRing log' (us ++ message_items m)
unfolding log_put_record
put_message tty m log err us short room v =
    let n = length m.text in
    let (log', run, ring) =
      put_items_lem (continued n) (n / 32 + 1) m.level m.date (m.text ++ m.behind) n 0 log us
        (omega arith) (omega (arith, length-append m.text m.behind)) (omega arith) (omega arith)
        (ap continued {x = n} {y = n - 0} (omega arith))
        (omega (arith, length-split_items (continued n) m.level m.text)) v in
    (
      log',
      rw (log_put_record, run) refl,
      subst (λ t. IsRing log' (us ++ split_items (continued n) m.level t))
          (ap (λ k. take k (m.text ++ m.behind)) {x = n - 0} {y = n} (omega arith)
            ∙ take-append m.text m.behind)
          ring,
    )

pub put_messages_lem :
    (tty : Bool) (ms : List Message) (log : LogBuffer) (err : List ℕ) (us : List Item)
    → All (λ m. length m.text < 512) ms
    → length us + length (all_items ms) ≤ 64
    → IsRing log us
    → (log' : LogBuffer) × (put_messages tty ms (record { buffer = some log; err = err })
        ≡ some (record { buffer = some log'; err = err }))
      × IsRing log' (us ++ all_items ms)
unfolding put_messages
put_messages_lem tty [] log err us short room v =
    (log, refl, subst (IsRing log) (sym (append-nil us)) v)
put_messages_lem tty (m ∷ ms) log err us short room v =
    let fits : length us + length (message_items m) + length (all_items ms) ≤ 64 =
      omega (arith, length-append (message_items m) (all_items ms)) in
    let (log1, run1, ring1) = put_message tty m log err us short.0 (omega arith) v in
    let (log2, run2, ring2) =
      put_messages_lem tty ms log1 err (us ++ message_items m) short.1
        (omega (arith, length-append us (message_items m))) ring1 in
    (
      log2,
      rw (put_messages, run1) run2,
      subst (IsRing log2) (append_assoc us (message_items m) (all_items ms)) ring2,
    )

print_message_lem :
    (name : List ℕ) (tty : Bool) (m : Message) (log : LogBuffer) (us : List Item)
    → length us + length (message_items m) < 64
    → IsRing log (message_items m ++ us)
    → (log' : LogBuffer) × (print_message name tty log
        ≡ some (record { out = print_name name ++ msg_print tty m.level m.text; log = log' }))
      × IsRing log' us
unfolding print_message
print_message_lem name tty m log us few v =
    let k = continued (length m.text) in
    let (log', run, ring) =
      print_records_lem k 64 m.level m.text log us
        (omega (arith, length-split_items k m.level m.text))
        (omega (arith, length-split_items k m.level m.text)) v in
    (next_tail log', rw (print_message, run, first_level k m.text v) refl, ring)
  where
    first_level :
        (k : ℕ) (text : List ℕ)
        → IsRing log (split_items k m.level text ++ us)
        → (get_or log.records log.tail no_record).level ≡ m.level
    first_level zero text w = ap (λ i. i.level) w.held.0
    first_level (suc k) text w = ap (λ i. i.level) w.held.0

print_round :
    (fuel : ℕ) (name : List ℕ) (tty : Bool) (log : LogBuffer) (p : Printed)
    → log.head ≢ log.tail
    → print_message name tty log ≡ some p
    → print_messages (suc fuel) name tty log ≡ (
        if p.log.head == p.log.tail
        then some p
        else prepend p.out (print_messages fuel name tty p.log))
unfolding print_messages
print_round fuel name tty log p ne run = rw (≢→== log.head log.tail ne, run) refl

last_round :
    (fuel : ℕ) (name : List ℕ) (tty : Bool) (line : List ℕ) (log : LogBuffer)
    → log.head ≡ log.tail
    → (if log.head == log.tail
        then some (record { out = line; log = log })
        else prepend line (print_messages fuel name tty log))
      ≡ some (record { out = line ++ []; log = log })
last_round fuel name tty line log e =
    let empty : (log.head == log.tail) ≡ true = (==_iff log.head log.tail).1 e in
    rw (empty, append-nil line) refl

next_round :
    (fuel : ℕ) (name : List ℕ) (tty : Bool) (line : List ℕ) (log : LogBuffer)
    → log.head ≢ log.tail
    → (if log.head == log.tail
        then some (record { out = line; log = log })
        else prepend line (print_messages fuel name tty log))
      ≡ prepend line (print_messages fuel name tty log)
next_round fuel name tty line log ne = rw (≢→== log.head log.tail ne) refl

length-all_items : (ms : List Message) → length ms ≤ length (all_items ms)
length-all_items [] = omega arith
length-all_items (m ∷ ms) = omega (
  arith,
  length-all_items ms,
  length-append (message_items m) (all_items ms),
  length-split_items (continued (length m.text)) m.level m.text,
)

print_messages_lem :
    (fuel : ℕ) (name : List ℕ) (tty : Bool) (ms : List Message) (log : LogBuffer)
    → length ms < fuel
    → length (all_items ms) < 64
    → IsRing log (all_items ms)
    → (log' : LogBuffer) × (print_messages fuel name tty log
        ≡ some (record { out = message_lines name tty ms; log = log' }))
      × IsRing log' []
unfolding print_messages
print_messages_lem zero name tty ms log more few v = absurd (omega arith)
print_messages_lem (suc fuel) name tty [] log more few v =
    let empty : (log.head == log.tail) ≡ true = (==_iff log.head log.tail).1 (nothing_held log v) in
    (log, rw empty refl, v)
print_messages_lem (suc fuel) name tty (m ∷ []) log more few v =
    let k = continued (length m.text) in
    let items : length (message_items m ++ []) ≡ k + 1 =
      ap length (append-nil (message_items m)) ∙ length-split_items k m.level m.text in
    let line = print_name name ++ msg_print tty m.level m.text in
    let (log1, run1, ring1) =
      print_message_lem name tty m log []
        (omega (arith, length-split_items k m.level m.text, items)) v in
    (
      log1,
      print_round fuel name tty log (record { out = line; log = log1 })
            (split_held k m.level m.text log [] (omega (arith, items)) v) run1
          ∙ last_round fuel name tty line log1 (nothing_held log1 ring1),
      ring1,
    )
print_messages_lem (suc fuel) name tty (m ∷ m2 ∷ ms) log more few v =
    let k = continued (length m.text) in
    let k2 = continued (length m2.text) in
    let behind = message_items m2 ++ all_items ms in
    let items : length (message_items m ++ behind) ≡ k + 1 + length behind =
      length-append (message_items m) behind
      ∙ ap (λ n. n + length behind) (length-split_items k m.level m.text) in
    let items2 : length behind ≡ k2 + 1 + length (all_items ms) =
      length-append (message_items m2) (all_items ms)
      ∙ ap (λ n. n + length (all_items ms)) (length-split_items k2 m2.level m2.text) in
    let line = print_name name ++ msg_print tty m.level m.text in
    let (log1, run1, ring1) =
      print_message_lem name tty m log behind
        (omega (arith, length-split_items k m.level m.text, items)) v in
    let (log2, run2, ring2) =
      print_messages_lem fuel name tty (m2 ∷ ms) log1 (omega arith) (omega (arith, items)) ring1 in
    (
      log2,
      print_round fuel name tty log (record { out = line; log = log1 })
            (split_held k m.level m.text log behind (omega (arith, items)) v) run1
          ∙ next_round fuel name tty line log1 (
              split_held k2 m2.level m2.text log1 (all_items ms) (omega (arith, items, items2))
                ring1)
          ∙ ap (prepend line) run2,
      ring2,
    )

-- Messages of fewer than 512 bytes that take fewer than 64 records, put one after the other into a
-- ring with no unread records, are printed by one log_print as their lines, in their order, each
-- byte once: the name, and what msg_print would write. The ring then has no unread records.
pub printed_in_order :
    (name : List ℕ) (tty : Bool) (ms : List Message) (log : LogBuffer) (err : List ℕ)
    → IsRing log []
    → All (λ m. length m.text < 512) ms
    → length (all_items ms) < 64
    → (log' : LogBuffer) × (log'' : LogBuffer) × (put_messages tty ms
          (record { buffer = some log; err = err })
        ≡ some (record { buffer = some log'; err = err }))
      × (log_print name tty log' ≡ some (record { out = message_lines name tty ms; log = log'' }))
      × IsRing log'' []
printed_in_order name tty ms log err v short few =
    let (log1, run1, ring1) = put_messages_lem tty ms log err [] short (omega arith) v in
    let (log2, run2, ring2) =
      print_messages_lem 64 name tty ms log1 (omega (arith, length-all_items ms)) few ring1 in
    (log1, log2, run1, run2, ring2)
