-- ===== src/Log/Spec.antt =====
-- A log as a queue of messages.
use rhex_service.Base.{ℕ, zero, suc, ◌-◌, ◌/◌, List, [], ◌∷◌, ◌++◌, Bool, length, take, drop}
use rhex_service.Log.{LogLevel, log_item_end, log_item_continue}
use rhex_service.Log.Print.{msg_print, print_name}

-- What a reader sees of a record.
pub record Item : Type 0 where
  pub level : LogLevel
  pub log_continue : ℕ
  pub text : List ℕ

-- A message, when and with what behind it in tmp_msg_buff it is put.
pub record Message : Type 0 where
  pub level : LogLevel
  pub date : ℕ
  pub text : List ℕ
  pub behind : List ℕ

-- How many records of a message of `n` bytes are followed by another one.
abbrev pub continued : ℕ → ℕ
continued n = (n - 1) / 32

abbrev pub split_items : ℕ → LogLevel → List ℕ → List Item
split_items zero level text =
    record { level = level; log_continue = log_item_end; text = text } ∷ []
split_items (suc k) level text =
    record { level = level; log_continue = log_item_continue; text = take 32 text }
    ∷ split_items k level (drop 32 text)

abbrev pub message_items : Message → List Item
message_items m = split_items (continued (length m.text)) m.level m.text

abbrev pub all_items : List Message → List Item
all_items [] = []
all_items (m ∷ ms) = message_items m ++ all_items ms

-- The lines that the messages make.
abbrev pub message_lines : List ℕ → Bool → List Message → List ℕ
message_lines name tty [] = []
message_lines name tty (m ∷ ms) =
    (print_name name ++ msg_print tty m.level m.text) ++ message_lines name tty ms
