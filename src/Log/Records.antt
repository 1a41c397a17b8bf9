-- ===== src/Log/Records.antt =====
-- One message: the records that it is put in, and how they are printed.
use rhex_service.Base.{
  ℕ, zero, suc, ◌+◌, ◌-◌, ◌%◌, ◌^◌, ◌≤◌, ◌<◌, ◌≡◌, ◌≢◌, refl, sym, ap, ap₂, subst, ◌∙◌, arith, List,
  [], ◌∷◌, ◌++◌, false, some, append_assoc,
}
use rhex_service.Base.{
  ◌==◌, length, take, drop, slice, get_or, take-take, drop-take, drop-drop, take-append-drop,
  length-take, length-drop, length-append, lt→ltb, le→ltb,
}
use rhex_service.Log.{LogLevel, LogBuffer, no_record}
use rhex_service.Log.Print.{record_text, next_tail, prepend, print_records}
use rhex_service.Log.Put.{unsent, put_item, put_items}
use rhex_service.Log.Spec.{Item, continued, split_items}
use rhex_service.Log.Ring.{item_of, IsRing, put_item_lem, IsRing-next, something_held}

pub length-split_items :
    (k : ℕ) (level : LogLevel) (text : List ℕ) → length (split_items k level text) ≡ k + 1
length-split_items zero level text = refl
length-split_items (suc k) level text = omega (arith, length-split_items k level (drop 32 text))

slice-length : (buff : List ℕ) (o n : ℕ) → o + n ≤ length buff → length (slice buff o n) ≡ n
slice-length buff o n h = omega (arith, length-take n (drop o buff), length-drop o buff)

-- The items of a message that is not written in one record.
split_items-slice :
    (k : ℕ) (level : LogLevel) (buff : List ℕ) (offset len : ℕ) (us : List Item)
    → offset + 32 ≤ len
    → (us ++ (record { level = level; log_continue = 1; text = slice buff offset 32 } ∷ []))
        ++ split_items k level (slice buff (offset + 32) (len - (offset + 32)))
      ≡ us ++ split_items (suc k) level (slice buff offset (len - offset))
split_items-slice k level buff offset len us h =
    append_assoc us (record { level = level; log_continue = 1; text = slice buff offset 32 } ∷ [])
      (split_items k level (slice buff (offset + 32) (len - (offset + 32))))
    ∙ ap₂
        (λ c s.
          us ++ (record { level = level; log_continue = 1; text = c } ∷ split_items k level s))
        (sym (take-take 32 (len - offset) (drop offset buff) (omega arith)))
        (sym (
          drop-take 32 (len - offset) (drop offset buff)
          ∙ ap₂ take {x = len - offset - 32} {y = len - (offset + 32)} (omega arith)
              (drop-drop 32 offset buff)))

pub put_items_again :
    (fuel : ℕ) (level : LogLevel) (tm : ℕ) (buff : List ℕ) (len offset : ℕ) (log : LogBuffer)
    → 32 < unsent len offset
    → offset < 2 ^ 32 - 32
    → offset + 32 ≤ length buff
    → put_items (suc fuel) level tm buff len offset log
      ≡ put_items fuel level tm buff len
          (offset + 32)
          (put_item level tm 32 1 (slice buff offset 32) log)
unfolding put_items
put_items_again fuel level tm buff len offset log more small inside =
    let next : (offset + 32) % 2 ^ 32 ≡ offset + 32 = omega arith in
    rw (lt→ltb 32 (unsent len offset) more, le→ltb (length buff) (offset + 32) inside, next) refl

pub split_held :
    (k : ℕ) (level : LogLevel) (text : List ℕ) (log : LogBuffer) (us : List Item)
    → length us + k < 63
    → IsRing log (split_items k level text ++ us)
    → log.head ≢ log.tail
split_held zero level text log us few v =
    something_held log (record { level = level; log_continue = 0; text = text }) us (omega arith) v
split_held (suc k) level text log us few v =
    something_held log (record { level = level; log_continue = 1; text = take 32 text })
      (split_items k level (drop 32 text) ++ us)
      (omega (
        arith,
        length-append (split_items k level (drop 32 text)) us,
        length-split_items k level (drop 32 text),
      ))
      v

pub ≢→== : (a b : ℕ) → a ≢ b → (a == b) ≡ false
≢→== a b h = ground arith

-- The loop ends, and puts the rest of the message in `k` records and a last one.
pub put_items_lem :
    (k fuel : ℕ) (level : LogLevel) (tm : ℕ) (buff : List ℕ) (len offset : ℕ) (log : LogBuffer)
    (us : List Item)
    → k < fuel
    → len ≤ length buff
    → len < 2 ^ 31
    → offset ≤ len
    → k ≡ continued (len - offset)
    → length us + k < 64
    → IsRing log us
    → (log' : LogBuffer) × (put_items fuel level tm buff len offset log ≡ some log')
      × IsRing log' (us ++ split_items k level (slice buff offset (len - offset)))
unfolding put_items
put_items_lem k zero level tm buff len offset log us more room small at e free v =
    absurd (omega arith)
put_items_lem zero (suc fuel) level tm buff len offset log us more room small at e free v = (
  put_item level tm (unsent len offset) 0 (slice buff offset (unsent len offset)) log,
  rw
      (
        le→ltb 32 (unsent len offset) (omega arith),
        le→ltb (length buff) (offset + unsent len offset) (omega arith),
      )
      refl,
  subst
      (λ n.
        IsRing (put_item level tm n 0 (slice buff offset n) log)
          (us ++ split_items 0 level (slice buff offset (len - offset))))
      {x = len - offset} {y = unsent len offset} (omega arith)
      (put_item_lem level tm (len - offset) 0 (slice buff offset (len - offset)) log us
        (sym (slice-length buff offset (len - offset) (omega arith))) (omega arith) (omega arith)
        v),
)
put_items_lem (suc k) (suc fuel) level tm buff len offset log us more room small at e free v =
    let item : Item = record { level = level; log_continue = 1; text = slice buff offset 32 } in
    let (log', run, ring) =
      put_items_lem k fuel level tm buff len (offset + 32)
        (put_item level tm 32 1 (slice buff offset 32) log) (us ++ (item ∷ [])) (omega arith) room
        small (omega arith) (omega arith) (omega (arith, length-append us (item ∷ [])))
        (put_item_lem level tm 32 1 (slice buff offset 32) log us
          (sym (slice-length buff offset 32 (omega arith))) (omega arith) (omega arith) v) in
    (
      log',
      put_items_again fuel level tm buff len offset log (omega arith) (omega arith) (omega arith)
          ∙ run,
      subst (IsRing log') (split_items-slice k level buff offset len us (omega arith)) ring,
    )

print_records_last :
    (fuel : ℕ) (log : LogBuffer) (level : LogLevel) (text : List ℕ)
    → item_of (get_or log.records log.tail no_record)
      ≡ record { level = level; log_continue = 0; text = text }
    → print_records (suc fuel) log ≡ some (record { out = text; log = log })
unfolding print_records
print_records_last fuel log level text e =
    let r = get_or log.records log.tail no_record in
    let ended : r.log_continue ≡ 0 = ap (λ i. i.log_continue) e in
    let shown : record_text r ≡ text = ap (λ i. i.text) e in rw (ended, shown) refl

pub print_records_again :
    (fuel : ℕ) (log : LogBuffer) (level : LogLevel) (text : List ℕ)
    → item_of (get_or log.records log.tail no_record)
      ≡ record { level = level; log_continue = 1; text = text }
    → log.head ≢ (next_tail log).tail
    → print_records (suc fuel) log ≡ prepend text (print_records fuel (next_tail log))
unfolding print_records
print_records_again fuel log level text e ne =
    let r = get_or log.records log.tail no_record in
    let continues : r.log_continue ≡ 1 = ap (λ i. i.log_continue) e in
    let shown : record_text r ≡ text = ap (λ i. i.text) e in
    rw (continues, shown, ≢→== log.head ((log.tail + 1) % 64) ne) refl

-- The records of a message, printed up to the last one, which stays in front.
pub print_records_lem :
    (k fuel : ℕ) (level : LogLevel) (text : List ℕ) (log : LogBuffer) (us : List Item)
    → k < fuel
    → length us + k < 63
    → IsRing log (split_items k level text ++ us)
    → (log' : LogBuffer) × (print_records fuel log ≡ some (record { out = text; log = log' }))
      × IsRing (next_tail log') us
print_records_lem k zero level text log us more few v = absurd (omega arith)
print_records_lem zero (suc fuel) level text log us more few v = (
  log,
  print_records_last fuel log level text v.held.0,
  IsRing-next log (record { level = level; log_continue = 0; text = text }) us v,
)
print_records_lem (suc k) (suc fuel) level text log us more few v =
    let item : Item = record { level = level; log_continue = 1; text = take 32 text } in
    let next : IsRing (next_tail log) (split_items k level (drop 32 text) ++ us) =
      IsRing-next log item (split_items k level (drop 32 text) ++ us) v in
    let (log', run, ring) =
      print_records_lem k fuel level (drop 32 text) (next_tail log) us (omega arith) (omega arith)
        next in
    (
      log',
      print_records_again fuel log level (take 32 text) v.held.0
            (split_held k level (drop 32 text) (next_tail log) us (omega arith) next)
          ∙ ap (prepend (take 32 text)) run
          ∙ ap (λ t. some (record { out = t; log = log' })) (take-append-drop 32 text),
      ring,
    )
