-- ===== src/Logger/Macros.antt =====
-- include/logger/macros.hpp: the six macros. Each stands for a call of a logging function at the place
-- where it is written.
use logparse.Base.{Bytes}
use logparse.Logger.{Logger, Caller, LogResult}
use logparse.Logger.Calls.{trace, debug, info, warn, error, fatal}
use logparse.Platform.{Platform}
use logparse.Record.{SourceLocation}

module _ {Tm : Type 0} (os : Platform Tm) where
  unfoldable pub logger_trace : Logger → Caller → SourceLocation → Bytes → LogResult Logger
  logger_trace l c location text = trace os l c location text

  unfoldable pub logger_debug : Logger → Caller → SourceLocation → Bytes → LogResult Logger
  logger_debug l c location text = debug os l c location text

  unfoldable pub logger_info : Logger → Caller → SourceLocation → Bytes → LogResult Logger
  logger_info l c location text = info os l c location text

  unfoldable pub logger_warn : Logger → Caller → SourceLocation → Bytes → LogResult Logger
  logger_warn l c location text = warn os l c location text

  unfoldable pub logger_error : Logger → Caller → SourceLocation → Bytes → LogResult Logger
  logger_error l c location text = error os l c location text

  unfoldable pub logger_fatal : Logger → Caller → SourceLocation → Bytes → LogResult Logger
  logger_fatal l c location text = fatal os l c location text
