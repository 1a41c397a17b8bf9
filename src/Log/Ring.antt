-- ===== src/Log/Ring.antt =====
-- The ring of records as a queue of the items a reader has not printed.
use rhex_service.Base.{
  ℕ, zero, suc, ◌+◌, ◌%◌, ◌≤◌, ◌<◌, ◌≡◌, ◌≢◌, sym, ap, ap₂, subst, ◌∙◌, arith, List, [], ◌∷◌, ◌++◌,
}
use rhex_service.Base.{
  length, take, drop, get_or, set, memcpy, memcpy_front, take-append, length-memcpy, length-set,
  length-append, get_or-set_self, get_or-set_ne,
}
use rhex_service.Log.{LogLevel, LogRecord, LogBuffer, no_record}
use rhex_service.Log.Print.{record_text, next_tail}
use rhex_service.Log.Put.{put_item}
use rhex_service.Log.Spec.{Item}

abbrev pub item_of : LogRecord → Item
item_of r = record { level = r.level; log_continue = r.log_continue; text = record_text r }

-- The records from `tail` on are these items.
abbrev pub Holds : List LogRecord → ℕ → List Item → Type 0
Holds records tail [] = Unit
Holds records tail (u ∷ us) =
    (item_of (get_or records tail no_record) ≡ u) × Holds records ((tail + 1) % 64) us

pub record IsRing (log : LogBuffer) (us : List Item) : Type 0 where
  pub slots : length log.records ≡ 64
  pub messages : (i : ℕ) → length (get_or log.records i no_record).msg ≡ 32
  pub at : log.tail < 64
  pub ahead : log.head ≡ (log.tail + length us) % 64
  pub held : Holds log.records log.tail us

-- A record in front of the tail, or behind the last item, can be written.
Holds-set :
    (records : List LogRecord) (tail : ℕ) (us : List Item) (i : ℕ) (r : LogRecord)
    → i ≡ (tail + length us) % 64
    → length us < 64
    → tail < 64
    → length records ≡ 64
    → Holds records tail us
    → Holds (set records i r) tail (us ++ (item_of r ∷ []))
Holds-set records tail us i r e n t l h = go us tail e n t h
  where
    go :
        (us : List Item) (tail : ℕ)
        → i ≡ (tail + length us) % 64
        → length us < 64
        → tail < 64
        → Holds records tail us
        → Holds (set records i r) tail (us ++ (item_of r ∷ []))
    go [] tail e n t h = (
      ap (λ j. item_of (get_or (set records i r) j no_record)) {x = tail} {y = i} (omega arith)
          ∙ ap item_of (get_or-set_self records i r no_record (omega arith)),
      tt,
    )
    go (u ∷ us) tail e n t h = (
      ap item_of (get_or-set_ne records i tail r no_record (λ q. absurd (omega arith))) ∙ h.0,
      go us ((tail + 1) % 64) (omega arith) (omega arith) (omega arith) h.1,
    )

messages-set :
    (records : List LogRecord) (i : ℕ) (r : LogRecord)
    → length r.msg ≡ 32
    → ((j : ℕ) → length (get_or records j no_record).msg ≡ 32)
    → (j : ℕ) → length (get_or (set records i r) j no_record).msg ≡ 32
messages-set [] i r e h j = h j
messages-set (x ∷ xs) zero r e h zero = e
messages-set (x ∷ xs) zero r e h (suc j) = h (suc j)
messages-set (x ∷ xs) (suc i) r e h zero = h zero
messages-set (x ∷ xs) (suc i) r e h (suc j) = messages-set xs i r e (λ k. h (suc k)) j

copied_text :
    (dst bytes : List ℕ)
    → length bytes ≤ 32
    → length dst ≡ 32
    → take (length bytes % 256) (memcpy dst 0 bytes) ≡ bytes
copied_text dst bytes small l =
    ap₂ take {x = length bytes % 256} {y = length bytes} (omega arith)
      (memcpy_front dst bytes (omega arith))
    ∙ take-append bytes (drop (length bytes) dst)

pub put_item_lem :
    (level : LogLevel) (tm n continue : ℕ) (bytes : List ℕ) (log : LogBuffer) (us : List Item)
    → n ≡ length bytes
    → n ≤ 32
    → length us < 64
    → IsRing log us
    → IsRing
        (put_item level tm n continue bytes log)
        (us ++ (record { level = level; log_continue = continue; text = bytes } ∷ []))
unfolding put_item
put_item_lem level tm n continue bytes log us e small free v = record {
  slots = length-set log.records log.head written ∙ v.slots;
  messages =
      messages-set log.records log.head written
        (length-memcpy old.msg 0 bytes ∙ v.messages log.head) v.messages;
  at = v.at;
  ahead =
      ap (λ h. (h + 1) % 64) v.ahead
      ∙ omega (arith, length-append us (item_of written ∷ []), v.at)
      ∙ ap (λ k. (log.tail + k) % 64) (sym (length-append us (item ∷ [])));
  held =
      subst (λ x. Holds (set log.records log.head written) log.tail (us ++ (x ∷ []))) shown
        (Holds-set log.records log.tail us log.head written v.ahead free v.at v.slots v.held);
}
  where
    old : LogRecord
    old = get_or log.records log.head no_record

    item : Item
    item = record { level = level; log_continue = continue; text = bytes }

    written : LogRecord
    written = record {
      level = level;
      date = tm;
      msg_len = n % 256;
      log_continue = continue;
      msg = memcpy old.msg 0 bytes;
    }

    shown : item_of written ≡ item
    shown =
        ap (λ t. record { level = level; log_continue = continue; text = t })
          (ap (λ m. take (m % 256) (memcpy old.msg 0 bytes)) e
            ∙ copied_text old.msg bytes (omega arith) (v.messages log.head))

-- The next record of a log that has one.
pub IsRing-next :
    (log : LogBuffer) (u : Item) (us : List Item) → IsRing log (u ∷ us) → IsRing (next_tail log) us
IsRing-next log u us v = record {
  slots = v.slots;
  messages = v.messages;
  at = omega arith;
  ahead = v.ahead ∙ omega (arith, v.at);
  held = v.held.1;
}

pub nothing_held : (log : LogBuffer) → IsRing log [] → log.head ≡ log.tail
nothing_held log v = omega (arith, v.ahead, v.at)

pub something_held :
    (log : LogBuffer) (u : Item) (us : List Item)
    → length us < 63
    → IsRing log (u ∷ us)
    → log.head ≢ log.tail
something_held log u us few v e = absurd (omega (arith, v.ahead, v.at, e))
