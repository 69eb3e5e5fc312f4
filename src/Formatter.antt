-- ===== src/Formatter.antt =====
-- include/logger/formatter.hpp and src/formatter.cpp: patterns, and log lines made from them.
-- A buffer is its bytes. The thread-local cache of `append_timestamp` is a state that each call
-- takes and returns; the lock round the formatter's fields makes each call one step.
mod Pattern
mod Append
pub mod Reads
pub mod Compile
pub mod Escape
pub mod Tokens
pub mod Cache
mod Tests
unfoldable pub use Pattern.{
  starts_with, push_token, add_literal, flush_literal, directive, switch_kind, compile_from,
  compile_pattern, default_formatter, make_formatter, pattern, set_pattern,
}
pub use Pattern.{
  flush_pending, direct, TokenKind, Token, Compiler, Formatter, timestamp_pattern, default_pattern,
  empty_compiler,
}
unfoldable pub use Append.{
  local_time, append_timestamp, append_time_component, append_token, append_tokens, format,
}
pub use Append.{TimeCache, cold}
