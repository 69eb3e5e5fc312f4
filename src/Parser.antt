-- ===== src/Parser.antt =====
-- include/logger/parser.hpp and src/parser.cpp: settings from `key=value` text.
-- The C locale decides what is a space and what is a lower-case letter. `std::getline` is `lines`,
-- and a path is its text.
mod Text
mod Values
mod Apply
pub mod Trim
pub mod Lines
pub mod Document
pub mod Keys
pub mod Levels
pub mod Sizes
pub mod Print
mod Tests
unfoldable pub use Text.{is_space, first_kept, last_kept, trim, to_lower, lower}
unfoldable pub use Values.{parse_size, parse_level, parse_mode, parse_overflow_policy, parse_bool}
unfoldable pub use Apply.{
  assign, apply, find_delimiter, parse_line, lines, parse_lines, parse, parse_file,
}
pub use Apply.{step_stripped, ParseFile, parsed_file, open_failed}
