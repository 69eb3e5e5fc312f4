-- ===== src/Record.antt =====
-- include/logger/record.hpp: one log event. Texts that the source keeps as views or in a
-- `fmt::memory_buffer` are their bytes. A time point and a thread id are numbers that stand for
-- them; only the platform reads them.
use logparse.Base.{ℕ, Bool, [], Bytes, ◌==◌, length}
use logparse.Level.{Level, info}

pub record LogRecord : Type 0 where
  pub timestamp : ℕ
  pub level : Level
  pub thread_id : ℕ
  pub process_id : ℕ
  pub file : Bytes
  pub function : Bytes
  pub line : ℕ
  pub message : Bytes
  pub logger_name : Bytes

-- `LogRecord{}`
abbrev pub blank_record : LogRecord
blank_record = record {
  timestamp = 0;
  level = info;
  thread_id = 0;
  process_id = 0;
  file = [];
  function = [];
  line = 0;
  message = [];
  logger_name = [];
}

-- `std::source_location`
pub record SourceLocation : Type 0 where
  pub file_name : Bytes
  pub function_name : Bytes
  pub line : ℕ

unfoldable pub current_location : SourceLocation → SourceLocation
current_location location = location

unfoldable pub message_size : LogRecord → ℕ
message_size r = length r.message

unfoldable pub empty : LogRecord → Bool
empty r = length r.message == 0

unfoldable pub clear : LogRecord → LogRecord
clear r = record r { message = [] }
