-- ===== src/Log.antt =====
-- liblog: the ring of log records that a process writes and the main process prints.
pub mod Put
pub mod Print
pub mod Ring
pub mod Spec
pub mod Records
pub mod Order
pub mod Overrun
use rhex_service.Base.{ℕ, ◌-◌, List, Bool, Option, none, some, if◌then◌else◌, replicate}

-- enum log_level
pub data LogLevel : Type 0 where
  level_dbg : LogLevel
  level_inf : LogLevel
  level_warn : LogLevel
  level_err : LogLevel
  level_exc : LogLevel

abbrev pub log_item_maxmsg : ℕ
log_item_maxmsg = 32

abbrev pub log_buffer_size : ℕ
log_buffer_size = 64

-- LOG_ITEM_END and LOG_ITEM_CONTINUE
abbrev pub log_item_end : ℕ
log_item_end = 0

abbrev pub log_item_continue : ℕ
log_item_continue = 1

-- struct log_record_t
pub record LogRecord : Type 0 where
  pub level : LogLevel
  pub date : ℕ
  pub msg_len : ℕ
  pub log_continue : ℕ
  pub msg : List ℕ

-- log_buffer_t
pub record LogBuffer : Type 0 where
  pub head : ℕ
  pub tail : ℕ
  pub records : List LogRecord

-- A record of fresh shared memory.
abbrev pub no_record : LogRecord
no_record = record {
  level = level_dbg;
  date = 0;
  msg_len = 0;
  log_continue = 0;
  msg = replicate 32 0;
}

-- The system's answers in log_create.
pub record LogFiles : Type 0 where
  pub shm_open_fails : Bool
  pub ftruncate_fails : Bool
  pub mmap_fails : Bool

-- `records` is what the mapped memory holds.
unfoldable pub log_create : LogFiles → List LogRecord → Option LogBuffer
log_create files records =
    if files.shm_open_fails
    then none
    else if files.ftruncate_fails
    then none
    else if files.mmap_fails
    then none
    else some (record { head = log_buffer_size - 2; tail = log_buffer_size - 2; records = records })
